-- ===== src/Control/Servo/Step.antt =====
-- servo_mode.h: `Step`, which runs the trajectory and then the PID, and limits the torque and the
-- current.
use spcd_actuator.Prelude.{Bool, true, false, ◌&&◌, not, if◌then◌else◌}
use spcd_actuator.Floats.{Floats}
use spcd_actuator.Control.Pid.{Scales, limit, apply_pid}
use spcd_actuator.Control.Pid
use spcd_actuator.Control.Servo.{Options, Servo}
use spcd_actuator.Control.Servo.Trajectory.{turns, update_trajectory}

module _ (fl : Floats) where
  -- `ActiveMaxTorqueNm`
  unfoldable pub max_torque : Servo fl → fl.F
  max_torque s =
      let given = s.command.max_torque_Nm in
      if fl.is_finite given && fl.lt (fl.lit 0 0) given then given else s.options.max_torque_Nm

  -- The velocity that the PID sees: the control's where the measured one is near it.
  unfoldable pub seen_hz : fl.F → Servo fl → fl.F
  seen_hz measured_hz s =
      let threshold = turns fl s.options.velocity_threshold in
      let dv = fl.sub measured_hz s.velocity_hz in
      let guarded = fl.lt (fl.lit 0 0) s.options.velocity_threshold && fl.is_finite s.velocity_hz in
      if guarded && (fl.lt (fl.neg threshold) dv && fl.lt dv threshold)
      then s.velocity_hz
      else measured_hz

  -- The scales of the command, without an integral for a velocity command that has no limit of it.
  unfoldable pub scales : Servo fl → Scales fl
  scales s =
      let scale = s.command.ilimit_scale in
      let none =
        not (fl.is_finite s.command.position_rad)
        && (fl.eq scale (fl.lit 1 0) && fl.le s.options.pid.ilimit (fl.lit 0 0)) in
      record {
        kp_scale = s.command.kp_scale;
        kd_scale = s.command.kd_scale;
        ilimit_scale = if none then fl.lit 0 0 else scale;
      }

  -- The PID in `Step`.
  unfoldable pub apply_control : fl.F → fl.F → fl.F → Servo fl → spcd_actuator.Control.Pid.State fl
  apply_control dt_s measured_turns measured_hz s =
      let position = if fl.is_finite s.position_turns then s.position_turns else measured_turns in
      let velocity = if fl.is_finite s.velocity_hz then s.velocity_hz else fl.lit 0 0 in
      apply_pid fl s.options.pid (scales s) measured_turns position (seen_hz measured_hz s) velocity
        dt_s s.pid

  -- The PID's state after the torque was cut to its limit.
  unfoldable pub unwind :
      fl.F → Servo fl → spcd_actuator.Control.Pid.State fl → spcd_actuator.Control.Pid.State fl
  unwind torque s p =
      let sign =
        if fl.lt s.options.pid.sign (fl.lit 0 0) then fl.neg (fl.lit 1 0) else fl.lit 1 0 in
      let wanted = fl.sub (fl.div torque sign) p.pd in
      let ilimit = fl.mul s.options.pid.ilimit (scales s).ilimit_scale in
      let integral =
        if fl.lt (fl.lit 0 0) ilimit then limit fl wanted (fl.neg ilimit) ilimit else fl.lit 0 0 in
      record p { integral = integral; command = fl.mul sign (fl.add p.pd integral) }

  -- The rest of `Step` after the PID: the limits of the torque and of the current.
  unfoldable pub current_of : Options fl → fl.F → fl.F
  current_of o torque =
      let kt = o.torque_constant_Nm_A in
      let iq = if fl.lt (fl.lit 1 6) kt then fl.div torque kt else fl.lit 0 0 in
      limit fl iq (fl.neg o.max_iq_A) o.max_iq_A

  unfoldable pub put_torque : fl.F → Servo fl → Servo fl
  put_torque torque s = record s { torque_Nm = torque; iq_ref = current_of s.options torque }

  -- By whether the limit changed the torque.
  unfoldable pub finish_if : Bool → fl.F → spcd_actuator.Control.Pid.State fl → Servo fl → Servo fl
  finish_if true torque p s =
      let top = max_torque s in
      let unwound = unwind torque s p in
      put_torque (limit fl unwound.command (fl.neg top) top) (record s { pid = unwound })
  finish_if false torque p s = put_torque torque (record s { pid = p })

  unfoldable pub finish : spcd_actuator.Control.Pid.State fl → Servo fl → Servo fl
  finish p s =
      let raw = fl.add p.command s.command.feedforward_Nm in
      let top = max_torque s in
      let torque = limit fl raw (fl.neg top) top in finish_if (not (fl.eq torque raw)) torque p s

  -- `Step`, by whether it runs: the servo afterwards and the returned current.
  unfoldable pub step_if : Bool → fl.F → fl.F → fl.F → Servo fl → Servo fl × fl.F
  step_if false dt_s measured_position_rad measured_velocity_rad_s s = (s, fl.lit 0 0)
  step_if true dt_s measured_position_rad measured_velocity_rad_s s =
      let dt = if fl.lt dt_s (fl.lit 1 7) then fl.lit 1 7 else dt_s in
      let measured_turns = turns fl measured_position_rad in
      let measured_hz = turns fl measured_velocity_rad_s in
      let moved = update_trajectory fl dt measured_turns measured_hz s in
      let next = finish (apply_control dt measured_turns measured_hz moved) moved in
      (next, next.iq_ref)

  unfoldable pub step : fl.F → fl.F → fl.F → Servo fl → Servo fl × fl.F
  step dt_s measured_position_rad measured_velocity_rad_s s =
      step_if (s.active && not s.faulted) dt_s measured_position_rad measured_velocity_rad_s s
