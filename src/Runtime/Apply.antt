-- ===== src/Runtime/Apply.antt =====
-- runtime_config_service.cc: `Apply`, which limits the settings and hands them to the encoder, the
-- modulator, the protection, the current controller and both modes, and `FillDefaults`.
use spcd_actuator.Prelude.{ℕ, if◌then◌else◌}
use spcd_actuator.Floats.{Floats}
use spcd_actuator.Control.Servo
use spcd_actuator.Control.Mit
use spcd_actuator.Control.Foc.Modulator
use spcd_actuator.Control.Foc.Modulator.{Modulator}
use spcd_actuator.Control.Foc.Controller
use spcd_actuator.Control.Foc.Controller.{Foc}
use spcd_actuator.Encoder.Pll
use spcd_actuator.Encoder.Service
use spcd_actuator.Encoder.Service.{Answers}
use spcd_actuator.Protection.Monitor
use spcd_actuator.Runtime.{Config, limit_motor, limit_bandwidth, limit_encoder}
use spcd_actuator.Runtime.Defaults.{
  phase_resistance_ohm, phase_inductance_H, bemf_Vpeak_per_krpm, pole_pairs, max_phase_current_A,
  bus_voltage_V, fw_speed_rad_s, bemf_v_per_mech_rad_s, torque_constant, capped_current,
  servo_mode_options, encoder_pll_options,
}

-- What `Apply` writes to.
pub record Controllers (fl : Floats) : Type 0 where
  pub encoder : spcd_actuator.Encoder.Service.Service fl
  pub modulator : Modulator fl
  pub protection : spcd_actuator.Protection.Monitor.Config fl
  pub foc : Foc fl
  pub servo : spcd_actuator.Control.Servo.Servo fl
  pub mit : spcd_actuator.Control.Mit.Mode fl

module _ (fl : Floats) where
  -- `FillDefaults`
  unfoldable pub defaults : Config fl
  defaults =
      let servo = servo_mode_options fl in
      record {
        motor = record {
          pole_pairs = pole_pairs fl;
          resistance_ohm = phase_resistance_ohm fl;
          inductance_H = phase_inductance_H fl;
          bemf_Vpeak_per_krpm = bemf_Vpeak_per_krpm fl;
          max_phase_current_A = max_phase_current_A fl;
          fw_speed_rad_s = fw_speed_rad_s fl;
          bus_V = bus_voltage_V fl;
        };
        foc = record {
          bandwidth_hz = fl.lit 200 0;
          bemf_feedforward = fl.lit 1 0;
          current_feedforward = fl.lit 1 0;
          cross_coupling_feedforward = fl.lit 1 0;
          max_current_desired_rate_A_s = fl.lit 10000 0;
        };
        servo = record {
          kp = servo.pid.kp;
          ki = servo.pid.ki;
          kd = servo.pid.kd;
          ilimit = servo.pid.ilimit;
          max_iq_A = servo.max_iq_A;
          velocity_threshold = servo.velocity_threshold;
          max_position_slip_rad = servo.max_position_slip_rad;
          max_velocity_error_rad_s = servo.max_velocity_error_rad_s;
          default_velocity_limit_rad_s = servo.default_velocity_limit_rad_s;
          default_accel_limit_rad_s2 = servo.default_accel_limit_rad_s2;
          sign_f = if fl.lt servo.pid.sign (fl.lit 0 0) then fl.neg (fl.lit 1 0) else fl.lit 1 0;
        };
        encoder = record {
          pll_filter_hz = fl.lit 400 0;
          spike_error_rad = fl.lit 15 2;
          filter_us = fl.of_u32 160;
        };
      }

  -- The limits of `Apply`.
  unfoldable pub limited : Config fl → Config fl
  limited c = record {
    motor = limit_motor fl c.motor;
    foc = record c.foc { bandwidth_hz = limit_bandwidth fl c.foc.bandwidth_hz };
    servo = c.servo;
    encoder = limit_encoder fl c.encoder;
  }

  -- The sensor's filter, and the delay between a sample and its voltage.
  unfoldable pub filter_window : Config fl → ℕ
  filter_window c = fl.to_u16 (fl.add c.encoder.filter_us (fl.lit 5 1))

  unfoldable pub phase_lead : ℕ → fl.F
  phase_lead filter_us =
      fl.add (fl.div (fl.lit 15 1) (fl.of_u32 15000)) (fl.mul (fl.of_u32 filter_us) (fl.lit 1 6))

  -- The options that follow from settings within their limits, by component.
  unfoldable pub pll_options : Config fl → spcd_actuator.Encoder.Pll.Options fl
  pll_options c = record (encoder_pll_options fl) {
    pll_filter_hz = c.encoder.pll_filter_hz;
    pole_pairs = c.motor.pole_pairs;
    spike_error_rad = c.encoder.spike_error_rad;
    max_velocity_mech_rad_s = fl.mul c.motor.fw_speed_rad_s (fl.lit 15 1);
  }

  unfoldable pub protection_config : Config fl → spcd_actuator.Protection.Monitor.Config fl
  protection_config c = record {
    overcurrent_A = fl.mul c.motor.max_phase_current_A (fl.lit 12 1);
    overcurrent_count = 5;
    i2t_rated_A = c.motor.max_phase_current_A;
    i2t_tau_s = fl.lit 2 0;
    bus_min_V = fl.lit 8 0;
    bus_max_V = fl.lit 54 0;
    fet_fault_C = fl.lit 100 0;
  }

  unfoldable pub apply_foc : Config fl → Foc fl → Foc fl
  apply_foc c f =
      let g = c.foc in
      let l = c.motor.inductance_H in
      let limits =
        spcd_actuator.Control.Foc.Controller.set_max_current fl c.motor.max_phase_current_A
          (spcd_actuator.Control.Foc.Controller.set_bus_voltage fl c.motor.bus_V f) in
      let forward =
        spcd_actuator.Control.Foc.Controller.set_max_current_desired_rate fl
          g.max_current_desired_rate_A_s
          (spcd_actuator.Control.Foc.Controller.set_feedforwards fl g.bemf_feedforward
            g.current_feedforward g.cross_coupling_feedforward limits) in
      let lead =
        spcd_actuator.Control.Foc.Controller.set_phase_lead fl (phase_lead (filter_window c))
          forward in
      let windings =
        spcd_actuator.Control.Foc.Controller.set_resistance_inductance fl c.motor.resistance_ohm l l
          lead in
      spcd_actuator.Control.Foc.Controller.set_bandwidth_hz fl g.bandwidth_hz (
        spcd_actuator.Control.Foc.Controller.set_v_per_hz fl
          (bemf_v_per_mech_rad_s fl c.motor.bemf_Vpeak_per_krpm) windings)

  abbrev pub mode_current : Config fl → fl.F
  mode_current c = capped_current fl c.motor.max_phase_current_A c.servo.max_iq_A

  unfoldable pub servo_options : Config fl → spcd_actuator.Control.Servo.Options fl
  servo_options c =
      let base = servo_mode_options fl in
      let kt = torque_constant fl c.motor.bemf_Vpeak_per_krpm in
      record base {
        pid = record base.pid {
          kp = c.servo.kp;
          ki = c.servo.ki;
          kd = c.servo.kd;
          ilimit = c.servo.ilimit;
          sign = if fl.lt c.servo.sign_f (fl.lit 0 0) then fl.neg (fl.lit 1 0) else fl.lit 1 0;
        };
        max_iq_A = mode_current c;
        velocity_threshold = c.servo.velocity_threshold;
        max_position_slip_rad = c.servo.max_position_slip_rad;
        max_velocity_error_rad_s = c.servo.max_velocity_error_rad_s;
        default_velocity_limit_rad_s = c.servo.default_velocity_limit_rad_s;
        default_accel_limit_rad_s2 = c.servo.default_accel_limit_rad_s2;
        max_velocity_cmd_rad_s = c.motor.fw_speed_rad_s;
        torque_constant_Nm_A = kt;
        max_torque_Nm = fl.mul kt (mode_current c);
      }

  unfoldable pub mit_options : Config fl → spcd_actuator.Control.Mit.Options fl
  mit_options c =
      let kt = torque_constant fl c.motor.bemf_Vpeak_per_krpm in
      record {
        max_torque_Nm = fl.mul kt (mode_current c);
        torque_constant_Nm_A = kt;
        max_iq_A = mode_current c;
      }

  -- `Apply` of settings within their limits, and of any
  unfoldable pub hand_out : Config fl → Answers → Controllers fl → Controllers fl
  hand_out c r k = record {
    encoder =
        spcd_actuator.Encoder.Service.set_pll_options fl (pll_options c)
          (spcd_actuator.Encoder.Service.set_sensor_filter_us fl (filter_window c) r k.encoder).0;
    modulator = spcd_actuator.Control.Foc.Modulator.set_bus_voltage fl c.motor.bus_V k.modulator;
    protection = protection_config c;
    foc = apply_foc c k.foc;
    servo = spcd_actuator.Control.Servo.set_options fl (servo_options c) k.servo;
    mit = spcd_actuator.Control.Mit.set_options fl (mit_options c) k.mit;
  }
