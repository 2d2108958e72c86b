-- ===== src/Control/Foc/Modulator.antt =====
-- fw/math/inc/math/foc/modulator.h: the open-loop modulator `DqModulator`.
use spcd_actuator.Prelude.{Bool, true, false, if◌then◌else◌, Option, none}
use spcd_actuator.Floats.{Floats}
use spcd_actuator.Motor.Start.{wrap_zero_to_two_pi}
use spcd_actuator.Control.Foc.{
  Dq, Duties, svpwm_ratio, sin_cos, dq_transform, inverse_dq_transform, from_phase_volts, duties_of,
}

-- `DqModulator::Options` and `DqModulator::Command`
pub record Options (fl : Floats) : Type 0 where
  pub bus_V : fl.F
  pub min_duty : fl.F
  pub max_duty : fl.F

pub record Command (fl : Floats) : Type 0 where
  pub theta_rad : fl.F
  pub voltage_V : fl.F
  pub q_voltage_V : fl.F
  pub theta_rate_rad_s : fl.F

-- The members of `DqModulator`.
pub record Modulator (fl : Floats) : Type 0 where
  pub options : Options fl
  pub active : Bool
  pub theta : fl.F
  pub voltage : fl.F
  pub q_voltage : fl.F
  pub theta_rate : fl.F

module _ (fl : Floats) where
  -- `Start`, `Stop`
  unfoldable pub start : Command fl → Modulator fl → Modulator fl
  start c m = record m {
    theta = wrap_zero_to_two_pi fl c.theta_rad;
    voltage = c.voltage_V;
    q_voltage = c.q_voltage_V;
    theta_rate = c.theta_rate_rad_s;
    active = true;
  }

  unfoldable pub stop : Modulator fl → Modulator fl
  stop m = record m { active = false }

  -- `SetThetaRate`, `SetVoltage`, `SetQVoltage`, `SetDqVoltage`, `SetBusVoltage`
  unfoldable pub set_theta_rate : fl.F → Modulator fl → Modulator fl
  set_theta_rate rate m = record m { theta_rate = rate }

  unfoldable pub set_voltage : fl.F → Modulator fl → Modulator fl
  set_voltage voltage_V m = record m { voltage = voltage_V }

  unfoldable pub set_q_voltage : fl.F → Modulator fl → Modulator fl
  set_q_voltage voltage_V m = record m { q_voltage = voltage_V }

  unfoldable pub set_dq_voltage : fl.F → fl.F → Modulator fl → Modulator fl
  set_dq_voltage d_voltage_V q_voltage_V m = record m {
    voltage = d_voltage_V;
    q_voltage = q_voltage_V;
  }

  unfoldable pub set_bus_voltage : fl.F → Modulator fl → Modulator fl
  set_bus_voltage bus_V m = record m { options = record m.options { bus_V = bus_V } }

  -- `Observe`
  unfoldable pub observe : fl.F → fl.F → fl.F → Modulator fl → Dq fl
  observe ia ib ic m = dq_transform fl (sin_cos fl m.theta) ia ib ic

  -- The limits of `Step`: of the D voltage, and of the Q voltage to what is left.
  unfoldable pub max_voltage : Options fl → fl.F
  max_voltage o = fl.mul (fl.mul (fl.sub (fl.lit 5 1) o.min_duty) o.bus_V) (svpwm_ratio fl)

  unfoldable pub cut : fl.F → fl.F → fl.F
  cut top v = if fl.lt top v then top else if fl.lt v (fl.neg top) then fl.neg top else v

  unfoldable pub q_limit : fl.F → fl.F → fl.F
  q_limit top vd =
      let square = fl.sub (fl.mul top top) (fl.mul vd vd) in
      fl.sqrt (if fl.lt square (fl.lit 0 0) then fl.lit 0 0 else square)

  unfoldable pub limited : Modulator fl → Dq fl
  limited m =
      let top = max_voltage m.options in
      let vd = cut top m.voltage in record { d = vd; q = cut (q_limit top vd) m.q_voltage }

  -- `Step`, `none` where it gives no duties
  unfoldable pub turn : fl.F → Modulator fl → Modulator fl
  turn dt_s m = record m {
    theta = wrap_zero_to_two_pi fl (fl.add m.theta (fl.mul m.theta_rate dt_s));
  }

  unfoldable pub duties_at : Modulator fl → Option Duties
  duties_at m =
      let v = limited m in
      duties_of fl (
        from_phase_volts fl (inverse_dq_transform fl (sin_cos fl m.theta) v.d v.q) m.options.bus_V
          m.options.min_duty m.options.max_duty)

  unfoldable pub step_if : Bool → fl.F → Modulator fl → Modulator fl × Option Duties
  step_if false dt_s m = (m, none)
  step_if true dt_s m = (turn dt_s m, duties_at (turn dt_s m))

  unfoldable pub step : fl.F → Modulator fl → Modulator fl × Option Duties
  step dt_s m = step_if m.active dt_s m
