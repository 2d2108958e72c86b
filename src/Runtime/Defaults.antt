-- ===== src/Runtime/Defaults.antt =====
-- fw/device/inc/device/motor.h and fw/board/xtellar_stm32g4/board_config.h: the motor's parameters, the
-- conversions of the back-EMF, and the options that the controllers start from.
use spcd_actuator.Prelude.{if◌then◌else◌}
use spcd_actuator.Floats.{Floats}
use spcd_actuator.Link.Commands.{quiet_nan}
use spcd_actuator.Motor.Start.{two_pi, pi}
use spcd_actuator.Control.Servo
use spcd_actuator.Encoder.Pll

module _ (fl : Floats) where
  -- `kDm4310`, where the controllers read it, and `kBusVoltage_V`
  abbrev pub phase_resistance_ohm : fl.F
  phase_resistance_ohm = fl.lit 65 2

  abbrev pub phase_inductance_H : fl.F
  phase_inductance_H = fl.lit 34 5

  abbrev pub bemf_Vpeak_per_krpm : fl.F
  bemf_Vpeak_per_krpm = fl.lit 115 1

  abbrev pub pole_pairs : fl.F
  pole_pairs = fl.lit 14 0

  abbrev pub max_phase_current_A : fl.F
  max_phase_current_A = fl.lit 49 1

  abbrev pub fw_speed_rpm : fl.F
  fw_speed_rpm = fl.lit 19098593 4

  abbrev pub bus_voltage_V : fl.F
  bus_voltage_V = fl.lit 48 0

  -- `kSqrt3`, and the speed in rad/s
  abbrev pub sqrt3 : fl.F
  sqrt3 = fl.lit 17320508075688772 16

  unfoldable pub fw_speed_rad_s : fl.F
  fw_speed_rad_s = fl.mul fw_speed_rpm (fl.div (two_pi fl) (fl.lit 60 0))

  -- `BemfVPerMechRadS`, `BemfVpeakPerKrpmFromDqKe` and `VendorTorqueConstantNmPerA`, of the back-EMF
  unfoldable pub bemf_v_per_mech_rad_s : fl.F → fl.F
  bemf_v_per_mech_rad_s bemf =
      fl.div (fl.mul bemf (fl.div (fl.lit 60 0) (fl.lit 1000 0))) (fl.mul (two_pi fl) sqrt3)

  unfoldable pub bemf_of_ke : fl.F → fl.F
  bemf_of_ke ke =
      fl.mul (fl.mul ke (fl.mul (two_pi fl) sqrt3)) (fl.div (fl.lit 1000 0) (fl.lit 60 0))

  unfoldable pub vendor_torque_constant : fl.F → fl.F
  vendor_torque_constant bemf = fl.mul (fl.lit 15 1) (bemf_v_per_mech_rad_s bemf)

  -- The constant that the modes take: 0.1 where the vendor's is below 0.05.
  unfoldable pub torque_constant : fl.F → fl.F
  torque_constant bemf =
      let kt = vendor_torque_constant bemf in if fl.lt kt (fl.lit 5 2) then fl.lit 1 1 else kt

  -- `max_iq_A` within the current of the motor
  unfoldable pub capped_current : fl.F → fl.F → fl.F
  capped_current max_phase_A max_iq_A = if fl.lt max_phase_A max_iq_A then max_phase_A else max_iq_A

  -- `ServoModeOptions`
  unfoldable pub servo_mode_options : spcd_actuator.Control.Servo.Options fl
  servo_mode_options =
      let kt = torque_constant bemf_Vpeak_per_krpm in
      let max_iq = capped_current max_phase_current_A (fl.lit 3 0) in
      record {
        pid = record {
          kp = fl.lit 4 0;
          ki = fl.lit 0 0;
          kd = fl.lit 5 2;
          iratelimit = fl.neg (fl.lit 1 0);
          ilimit = fl.lit 0 0;
          max_desired_rate = fl.lit 0 0;
          sign = fl.neg (fl.lit 1 0);
        };
        max_torque_Nm = fl.mul kt max_iq;
        torque_constant_Nm_A = kt;
        max_iq_A = max_iq;
        default_velocity_limit_rad_s = fw_speed_rad_s;
        default_accel_limit_rad_s2 = quiet_nan fl;
        max_velocity_cmd_rad_s = fw_speed_rad_s;
        velocity_threshold = fl.lit 5 1;
        max_position_slip_rad = pi fl;
        max_velocity_error_rad_s = fl.lit 0 0;
        velocity_zero_capture_threshold = fl.lit 1 2;
      }

  -- `EncoderPllOptions`, `ProtectionConfig`
  unfoldable pub encoder_pll_options : spcd_actuator.Encoder.Pll.Options fl
  encoder_pll_options = record {
    pll_filter_hz = fl.lit 400 0;
    pole_pairs = pole_pairs;
    max_velocity_mech_rad_s = fl.mul fw_speed_rad_s (fl.lit 15 1);
    spike_error_rad = fl.lit 15 2;
  }
