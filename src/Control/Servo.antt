-- ===== src/Control/Servo.antt =====
-- fw/math/inc/math/servo_mode/servo_mode.h: the state of `ServoMode` and the operations that set its
-- command.
pub mod Trajectory
pub mod Step
pub mod Stop
pub mod Limits
pub mod Tests
use spcd_actuator.Prelude.{Bool, true, false, ◌&&◌, ◌||◌, not, if◌then◌else◌}
use spcd_actuator.Floats.{Floats}
use spcd_actuator.Link.Commands.{ServoCommand, quiet_nan, default_servo}
use spcd_actuator.Control.Pid
use spcd_actuator.Control.Pid.{limit, clear}

-- `ServoMode::Options`
pub record Options (fl : Floats) : Type 0 where
  pub pid : spcd_actuator.Control.Pid.Config fl
  pub max_torque_Nm : fl.F
  pub torque_constant_Nm_A : fl.F
  pub max_iq_A : fl.F
  pub default_velocity_limit_rad_s : fl.F
  pub default_accel_limit_rad_s2 : fl.F
  pub max_velocity_cmd_rad_s : fl.F
  pub velocity_threshold : fl.F
  pub max_position_slip_rad : fl.F
  pub max_velocity_error_rad_s : fl.F
  pub velocity_zero_capture_threshold : fl.F

-- The members of `ServoMode`.
pub record Servo (fl : Floats) : Type 0 where
  pub options : Options fl
  pub command : ServoCommand fl
  pub pid : spcd_actuator.Control.Pid.State fl
  pub active : Bool
  pub faulted : Bool
  pub done : Bool
  pub velocity_hz : fl.F
  pub position_turns : fl.F
  pub accel_hz_s : fl.F
  pub iq_ref : fl.F
  pub torque_Nm : fl.F

module _ (fl : Floats) where
  -- `Abs`
  unfoldable pub abs : fl.F → fl.F
  abs x = if fl.le (fl.lit 0 0) x then x else fl.neg x

  -- A limit of a command as it is given or, where it is no number, the default; a negative one is none.
  unfoldable pub given_limit : fl.F → fl.F → fl.F
  given_limit default x =
      if not (fl.is_finite x) then default else if fl.lt x (fl.lit 0 0) then quiet_nan fl else x

  -- The velocity limit of a command that has a limit of the velocity or of the acceleration.
  unfoldable pub capped_limit : fl.F → fl.F → fl.F
  capped_limit top x =
      if not (fl.is_finite x)
      then top
      else if fl.lt (fl.lit 0 0) top
      then abs (limit fl x (fl.neg top) top)
      else x

  unfoldable pub velocity_limit : Options fl → ServoCommand fl → fl.F
  velocity_limit o c =
      let given = given_limit o.default_velocity_limit_rad_s c.velocity_limit_rad_s in
      let accel = given_limit o.default_accel_limit_rad_s2 c.accel_limit_rad_s2 in
      if fl.is_finite given || fl.is_finite accel
      then capped_limit o.max_velocity_cmd_rad_s given
      else given

  unfoldable pub limited_velocity : Options fl → fl.F → fl.F → fl.F
  limited_velocity o top v =
      let max_cmd = o.max_velocity_cmd_rad_s in
      if fl.is_finite top
      then limit fl v (fl.neg top) top
      else if fl.lt (fl.lit 0 0) max_cmd
      then limit fl v (fl.neg max_cmd) max_cmd
      else v

  unfoldable pub scale_or_one : fl.F → fl.F
  scale_or_one x = if fl.is_finite x then x else fl.lit 1 0

  -- `NormalizeCommandLimits`
  unfoldable pub normalize : Options fl → ServoCommand fl → ServoCommand fl
  normalize o c =
      let top = velocity_limit o c in
      record c {
        velocity_limit_rad_s = top;
        accel_limit_rad_s2 = given_limit o.default_accel_limit_rad_s2 c.accel_limit_rad_s2;
        velocity_rad_s = limited_velocity o top c.velocity_rad_s;
        kp_scale = scale_or_one c.kp_scale;
        kd_scale = scale_or_one c.kd_scale;
        ilimit_scale = scale_or_one c.ilimit_scale;
      }

  -- `Start`
  unfoldable pub start : ServoCommand fl → Servo fl → Servo fl
  start c s = record s {
    command = normalize s.options c;
    velocity_hz = quiet_nan fl;
    position_turns = quiet_nan fl;
    accel_hz_s = fl.lit 0 0;
    done = false;
    pid = clear fl;
    iq_ref = fl.lit 0 0;
    torque_Nm = fl.lit 0 0;
    faulted = false;
    active = true;
  }

  -- `Start` of a position and a velocity
  unfoldable pub start_at : fl.F → fl.F → fl.F → Servo fl → Servo fl
  start_at position_cmd_rad velocity_cmd_mech_rad_s id_ref_A s =
      start
        (record (default_servo fl) {
          position_rad = position_cmd_rad;
          velocity_rad_s = velocity_cmd_mech_rad_s;
          id_ref_A = id_ref_A;
        })
        s

  -- `Stop`
  unfoldable pub stop : Servo fl → Servo fl
  stop s = record s {
    active = false;
    velocity_hz = quiet_nan fl;
    position_turns = quiet_nan fl;
    accel_hz_s = fl.lit 0 0;
    done = false;
    iq_ref = fl.lit 0 0;
    torque_Nm = fl.lit 0 0;
    faulted = false;
    pid = clear fl;
  }

  -- `SetCommand`, `SetVelocity`, `SetPosition`, `SetIdRef`
  unfoldable pub set_command : ServoCommand fl → Servo fl → Servo fl
  set_command c s = record s { command = normalize s.options c; done = false }

  unfoldable pub set_velocity : fl.F → Servo fl → Servo fl
  set_velocity v s = record s { command = record s.command { velocity_rad_s = v }; done = false }

  unfoldable pub set_position : fl.F → Servo fl → Servo fl
  set_position p s = record s { command = record s.command { position_rad = p }; done = false }

  unfoldable pub set_id_ref : fl.F → Servo fl → Servo fl
  set_id_ref id_A s = record s { command = record s.command { id_ref_A = id_A } }

  -- `SetTorqueConstant`, `SetOptions`
  unfoldable pub set_torque_constant : fl.F → Servo fl → Servo fl
  set_torque_constant nm_per_a s = record s {
    options = record s.options {
      torque_constant_Nm_A = nm_per_a;
      max_torque_Nm = fl.mul nm_per_a s.options.max_iq_A;
    };
  }

  unfoldable pub set_options : Options fl → Servo fl → Servo fl
  set_options o s = record s { options = o }
