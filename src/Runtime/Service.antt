-- ===== src/Runtime/Service.antt =====
-- runtime_config_service.cc: `RuntimeConfigService` with the settings and the flag of the flash. What
-- the stores in flash and the calibration answer is the record `Readings`, and the calls on the motor
-- control, the store and the calibration are a history, newest first.
use spcd_actuator.Prelude.{
  Bool, true, false, ◌&&◌, not, if◌then◌else◌, Option, none, some, List, ◌∷◌,
}
use spcd_actuator.Floats.{Floats}
use spcd_actuator.Calibration.Record.{Stored}
use spcd_actuator.Calibration.Manager.{Results}
use spcd_actuator.Control.Foc.Controller
use spcd_actuator.Control.Foc.Controller.{set_resistance_inductance, set_v_per_hz}
use spcd_actuator.Control.Foc.Modulator
use spcd_actuator.Control.Servo.{set_torque_constant}
use spcd_actuator.Encoder.Service.{Answers}
use spcd_actuator.Runtime.{Motor, Config, accept_resistance, accept_inductance, seed_impedance}
use spcd_actuator.Runtime.Defaults.{bemf_of_ke}
use spcd_actuator.Runtime.Apply.{Controllers, defaults, limited, hand_out}

pub data ServiceCall : Type 0 where
  stop_motor save_config load_persistent_config : ServiceCall

-- What `RuntimeConfigStore::Load` and `Save`, `MotorCalibrationStore::Load`, the sessions and the
-- sensor answer.
pub record Readings (fl : Floats) : Type 0 where
  pub stored : Option (Config fl)
  pub saved : Bool
  pub calibration : Option (Stored fl)
  pub results : Results fl
  pub sensor : Answers

pub record State (fl : Floats) : Type 0 where
  pub config : Config fl
  pub flash_valid : Bool
  pub controllers : Controllers fl
  pub calls : List ServiceCall

module _ (fl : Floats) where
  abbrev pub call : ServiceCall → State fl → State fl
  call c s = record s { calls = c ∷ s.calls }

  -- `Apply`
  unfoldable pub apply : Readings fl → State fl → State fl
  apply r s =
      let c = limited fl s.config in
      record s { config = c; controllers = hand_out fl c r.sensor s.controllers }

  -- `ReloadPersistentCalibration`, `FillDefaults`
  unfoldable pub reload : State fl → State fl
  reload s = call load_persistent_config s

  unfoldable pub fill_defaults : State fl → State fl
  fill_defaults s = record s { config = defaults fl }

  -- The back-EMF, in `SeedMotorElectricalFromCalibrationFlash` and `AcceptBemfCalibration`
  unfoldable pub take_ke : Bool → fl.F → Motor fl → Motor fl
  take_ke ok ke m = record m {
    bemf_Vpeak_per_krpm =
        if ok && fl.lt (fl.lit 5 3) ke then bemf_of_ke fl ke else m.bemf_Vpeak_per_krpm;
  }

  -- `SeedMotorElectricalFromCalibrationFlash`
  unfoldable pub seed_bemf : Option (Stored fl) → Motor fl → Motor fl
  seed_bemf none m = m
  seed_bemf (some d) m = take_ke d.bemf_valid d.bemf_v_per_hz m

  unfoldable pub seed : Option (Stored fl) → State fl → State fl
  seed d s = record s {
    config = record s.config { motor = seed_bemf d (seed_impedance fl d s.config.motor) };
  }

  -- `Initialize`, by what the store loads
  unfoldable pub take_stored : Option (Config fl) → Readings fl → State fl → State fl
  take_stored (some c) r s = record s { config = c; flash_valid = true }
  take_stored none r s = seed r.calibration (record s { flash_valid = false })

  unfoldable pub initialize : Readings fl → State fl → State fl
  initialize r s = reload (apply r (take_stored r.stored r (fill_defaults s)))

  -- `Save`
  unfoldable pub save : Readings fl → State fl → State fl × Bool
  save r s =
      let t = call save_config (call stop_motor s) in
      (record t { flash_valid = if r.saved then true else s.flash_valid }, r.saved)

  -- `Load`, by what the store loads
  unfoldable pub load_if : Option (Config fl) → Readings fl → State fl → State fl × Bool
  load_if none r s = (record s { flash_valid = false }, false)
  load_if (some c) r s = (reload (apply r (record s { config = c; flash_valid = true })), true)

  unfoldable pub load : Readings fl → State fl → State fl × Bool
  load r s = load_if r.stored r s

  -- `RestoreDefaults`
  unfoldable pub restore_defaults : Readings fl → State fl → State fl
  restore_defaults r s = reload (apply r (fill_defaults s))

  -- `AcceptResistanceCalibration`, `AcceptInductanceCalibration`, `AcceptBemfCalibration`
  abbrev pub put_motor : (Motor fl → Motor fl) → State fl → State fl
  put_motor f s = record s { config = record s.config { motor = f s.config.motor } }

  unfoldable pub accept_resistance_calibration : Readings fl → State fl → State fl
  accept_resistance_calibration r s = put_motor (accept_resistance fl r.results) s

  unfoldable pub accept_inductance_calibration : Readings fl → State fl → State fl
  accept_inductance_calibration r s = put_motor (accept_inductance fl r.results) s

  unfoldable pub accept_bemf_calibration : Readings fl → State fl → State fl
  accept_bemf_calibration r s = put_motor (take_ke r.results.bemf_ok r.results.ke_v_s_per_rad) s

  -- The ends of the sessions in `StepIsr`: `ApplyResistanceResult`, `ApplyInductanceResult` and
  -- `ApplyBemfResult` on the controllers, each before the settings accept the result.
  abbrev pub put_controllers : (Controllers fl → Controllers fl) → State fl → State fl
  put_controllers f s = record s { controllers = f s.controllers }

  unfoldable pub apply_resistance : Bool → fl.F → Controllers fl → Controllers fl
  apply_resistance true resistance_ohm k = record k {
    foc =
        set_resistance_inductance fl resistance_ohm k.foc.options.inductance_d_H
          k.foc.options.inductance_q_H k.foc;
  }
  apply_resistance false resistance_ohm k = k

  unfoldable pub apply_inductance : Bool → fl.F → fl.F → Controllers fl → Controllers fl
  apply_inductance true d_H q_H k = record k {
    foc = set_resistance_inductance fl k.foc.options.resistance_ohm d_H q_H k.foc;
  }
  apply_inductance false d_H q_H k = k

  unfoldable pub apply_bemf : Bool → fl.F → Controllers fl → Controllers fl
  apply_bemf true ke k = record k {
    foc = set_v_per_hz fl ke k.foc;
    servo = set_torque_constant fl (fl.mul (fl.lit 15 1) ke) k.servo;
  }
  apply_bemf false ke k = k

  unfoldable pub end_resistance : Readings fl → State fl → State fl
  end_resistance r s =
      let m = r.results in
      accept_resistance_calibration r (
        put_controllers
          (apply_resistance (m.resistance_ok && not (fl.le m.resistance_ohm (fl.lit 1 3)))
            m.resistance_ohm)
          s)

  unfoldable pub end_inductance : Readings fl → State fl → State fl
  end_inductance r s =
      let m = r.results in
      let usable =
        m.inductance_ok
        && (not (fl.le m.inductance_d_H (fl.lit 0 0))
            && not (fl.le m.inductance_q_H (fl.lit 0 0))) in
      accept_inductance_calibration r
        (put_controllers (apply_inductance usable m.inductance_d_H m.inductance_q_H) s)

  unfoldable pub end_bemf : Readings fl → State fl → State fl
  end_bemf r s =
      let m = r.results in
      accept_bemf_calibration r (
        put_controllers
          (apply_bemf (m.bemf_ok && not (fl.le m.ke_v_s_per_rad (fl.lit 5 3))) m.ke_v_s_per_rad) s)

  -- `SampleSlowTelemetry` with a measured bus voltage
  unfoldable pub sample_bus : fl.F → State fl → State fl
  sample_bus bus_V s =
      put_controllers
        (λ k. record k {
          foc = spcd_actuator.Control.Foc.Controller.set_bus_voltage fl bus_V k.foc;
          modulator = spcd_actuator.Control.Foc.Modulator.set_bus_voltage fl bus_V k.modulator;
        })
        s

  -- The write of `mutable_config` that an `Apply` follows, as the command adapter makes it
  unfoldable pub put_config : Config fl → Readings fl → State fl → State fl
  put_config c r s = apply r (record s { config = c })
