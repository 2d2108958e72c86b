-- ===== src/Control/Mit.antt =====
-- fw/math/inc/math/servo_mode/mit_mode.h: `MitMode`.
use spcd_actuator.Prelude.{Bool, true, false, ◌&&◌, if◌then◌else◌}
use spcd_actuator.Floats.{Floats}
use spcd_actuator.Link.Commands.{MitCommand}
use spcd_actuator.Control.Pid.{limit}

-- `MitMode::Options`
pub record Options (fl : Floats) : Type 0 where
  pub max_torque_Nm : fl.F
  pub torque_constant_Nm_A : fl.F
  pub max_iq_A : fl.F

pub record Mode (fl : Floats) : Type 0 where
  pub options : Options fl
  pub command : MitCommand fl
  pub iq_ref : fl.F
  pub torque_Nm : fl.F
  pub active : Bool

module _ (fl : Floats) where
  -- `NormalizeLimits`
  unfoldable pub normalize_limits : MitCommand fl → MitCommand fl
  normalize_limits c = record c {
    kp_nm_per_rad = if fl.lt c.kp_nm_per_rad (fl.lit 0 0) then fl.lit 0 0 else c.kp_nm_per_rad;
    kd_nm_s_per_rad =
        if fl.lt c.kd_nm_s_per_rad (fl.lit 0 0) then fl.lit 0 0 else c.kd_nm_s_per_rad;
    max_torque_Nm =
        if fl.is_finite c.max_torque_Nm && fl.lt c.max_torque_Nm (fl.lit 0 0)
        then fl.lit 0 0
        else c.max_torque_Nm;
  }

  -- `SetOptions`
  unfoldable pub set_options : Options fl → Mode fl → Mode fl
  set_options o m = record m { options = o }

  -- `Start`
  unfoldable pub start : MitCommand fl → Mode fl → Mode fl
  start c m = record m {
    command = normalize_limits c;
    iq_ref = fl.lit 0 0;
    torque_Nm = fl.lit 0 0;
    active = true;
  }

  -- `SetCommand`
  unfoldable pub set_command : MitCommand fl → Mode fl → Mode fl
  set_command c m = record m { command = normalize_limits c }

  -- `Stop`
  unfoldable pub stop : Mode fl → Mode fl
  stop m = record m { active = false; iq_ref = fl.lit 0 0; torque_Nm = fl.lit 0 0 }

  -- The torque of `Step` before its limit, the limit, and the torque constant.
  unfoldable pub impedance : MitCommand fl → fl.F → fl.F → fl.F
  impedance c position_rad velocity_rad_s =
      fl.add
        (fl.add (fl.mul c.kp_nm_per_rad (fl.sub c.position_rad position_rad))
          (fl.mul c.kd_nm_s_per_rad (fl.sub c.velocity_rad_s velocity_rad_s)))
        c.feedforward_Nm

  unfoldable pub max_torque : Mode fl → fl.F
  max_torque m =
      if fl.is_finite m.command.max_torque_Nm
      then m.command.max_torque_Nm
      else m.options.max_torque_Nm

  unfoldable pub torque_constant : Options fl → fl.F
  torque_constant o =
      if fl.lt o.torque_constant_Nm_A (fl.lit 1 6) then fl.lit 1 6 else o.torque_constant_Nm_A

  -- `Step`, by whether the mode is active; it returns `iq_ref`.
  unfoldable pub step_if : Bool → fl.F → fl.F → Mode fl → Mode fl
  step_if false position_rad velocity_rad_s m = record m {
    iq_ref = fl.lit 0 0;
    torque_Nm = fl.lit 0 0;
  }
  step_if true position_rad velocity_rad_s m =
      let max_t = max_torque m in
      let torque =
        limit fl (impedance m.command position_rad velocity_rad_s) (fl.neg max_t) max_t in
      let max_iq = m.options.max_iq_A in
      record m {
        torque_Nm = torque;
        iq_ref = limit fl (fl.div torque (torque_constant m.options)) (fl.neg max_iq) max_iq;
      }

  unfoldable pub step : fl.F → fl.F → Mode fl → Mode fl
  step position_rad velocity_rad_s m = step_if m.active position_rad velocity_rad_s m
