-- ===== src/Control/Servo/Trajectory.antt =====
-- servo_mode.h: `UpdateTrajectory` with `EnsureControlState`, `CalculateAcceleration` and
-- `FinishTrajectoryGuards`. Positions are in turns and velocities in Hz, as in the source.
use spcd_actuator.Prelude.{Bool, true, false, ◌&&◌, ◌||◌, not, if◌then◌else◌}
use spcd_actuator.Floats.{Floats}
use spcd_actuator.Link.Commands.{ServoCommand, quiet_nan}
use spcd_actuator.Motor.Start.{two_pi}
use spcd_actuator.Control.Servo.{Servo, abs}

module _ (fl : Floats) where
  unfoldable pub turns : fl.F → fl.F
  turns x = fl.div x (two_pi fl)

  -- The command's velocity in Hz, and which of its fields are given.
  unfoldable pub command_hz : Servo fl → fl.F
  command_hz s = turns s.command.velocity_rad_s

  abbrev pub has_position : Servo fl → Bool
  has_position s = fl.is_finite s.command.position_rad

  abbrev pub has_velocity_limit : Servo fl → Bool
  has_velocity_limit s = fl.is_finite s.command.velocity_limit_rad_s

  abbrev pub has_accel_limit : Servo fl → Bool
  has_accel_limit s = fl.is_finite s.command.accel_limit_rad_s2

  abbrev pub lose_position : ServoCommand fl → ServoCommand fl
  lose_position c = record c { position_rad = quiet_nan fl }

  -- `EnsureControlState`
  unfoldable pub capture : fl.F → fl.F → Servo fl → Servo fl
  capture measured_turns measured_hz s =
      let fresh = not (fl.is_finite s.position_turns) in
      let slow = fl.lt (abs fl measured_hz) (turns s.options.velocity_zero_capture_threshold) in
      record s {
        position_turns = if fresh then measured_turns else s.position_turns;
        velocity_hz = if fresh then (if slow then fl.lit 0 0 else measured_hz) else s.velocity_hz;
        accel_hz_s = if fresh then fl.lit 0 0 else s.accel_hz_s;
      }

  unfoldable pub ensure : fl.F → fl.F → Servo fl → Servo fl
  ensure measured_turns measured_hz s =
      let t = capture measured_turns measured_hz s in
      record t { velocity_hz = if fl.is_finite t.velocity_hz then t.velocity_hz else fl.lit 0 0 }

  -- The branch of a command without limits, by whether it has a position.
  unfoldable pub follow_at_once : Bool → fl.F → fl.F → fl.F → Servo fl → Servo fl
  follow_at_once true dt_s measured_turns measured_hz s = record s {
    done = true;
    accel_hz_s = fl.lit 0 0;
    velocity_hz = command_hz s;
    position_turns = turns s.command.position_rad;
    command = lose_position s.command;
  }
  follow_at_once false dt_s measured_turns measured_hz s =
      let t =
        ensure measured_turns measured_hz
          (record s { done = true; accel_hz_s = fl.lit 0 0; velocity_hz = command_hz s }) in
      record t { position_turns = fl.add t.position_turns (fl.mul t.velocity_hz dt_s) }

  abbrev pub sign_if : Bool → fl.F
  sign_if b = if b then fl.lit 1 0 else fl.neg (fl.lit 1 0)

  -- To the command's velocity, with its acceleration.
  unfoldable pub accelerate : fl.F → Servo fl → Servo fl
  accelerate dt_s s =
      let wanted = command_hz s in
      let initial_sign = sign_if (fl.lt (fl.lit 0 0) (fl.sub wanted s.velocity_hz)) in
      let accel = fl.mul (turns s.command.accel_limit_rad_s2) initial_sign in
      let next = fl.add s.velocity_hz (fl.mul accel dt_s) in
      let crossed = not (fl.eq (sign_if (fl.lt next wanted)) initial_sign) in
      record s {
        accel_hz_s = if crossed then fl.lit 0 0 else accel;
        velocity_hz = if crossed then wanted else next;
        done = if crossed then true else s.done;
      }

  -- To the command's position at its velocity limit.
  unfoldable pub cruise : fl.F → Servo fl → Servo fl
  cruise dt_s s =
      let dx = fl.sub (turns s.command.position_rad) s.position_turns in
      let initial_sign = sign_if (fl.lt dx (fl.lit 0 0)) in
      let velocity = fl.mul (fl.neg initial_sign) (turns s.command.velocity_limit_rad_s) in
      let next_dx = fl.sub dx (fl.mul velocity dt_s) in
      let crossed = not (fl.eq (sign_if (fl.lt next_dx (fl.lit 0 0))) initial_sign) in
      record s {
        accel_hz_s = fl.lit 0 0;
        velocity_hz = if crossed then command_hz s else velocity;
        command = if crossed then lose_position s.command else s.command;
        done = if crossed then true else s.done;
      }

  -- The deceleration that stops in time, no more than `a`.
  unfoldable pub brake : fl.F → fl.F → fl.F → fl.F
  brake a v_frame dx =
      let v = abs fl v_frame in
      let exact = fl.mul (fl.mul v v) (fl.div (fl.lit 1 0) (fl.mul (fl.lit 2 0) (abs fl dx))) in
      let required = if fl.lt a exact then a else exact in
      if fl.lt (fl.lit 0 0) v_frame then fl.neg required else required

  -- The part of `CalculateAcceleration` that moves towards the target.
  unfoldable pub approach : fl.F → fl.F → fl.F → fl.F → fl.F → fl.F → fl.F
  approach a v0 v_frame dx dt velocity_limit_hz =
      let inv_2a = fl.div (fl.lit 1 0) (fl.mul (fl.lit 2 0) a) in
      let stop_distance = fl.mul (fl.mul v_frame v_frame) inv_2a in
      let dx_abs = abs fl dx in
      let v_next = fl.add (abs fl v_frame) (fl.mul a dt) in
      let dx_step = fl.mul (fl.mul (fl.add (abs fl v_frame) v_next) (fl.lit 5 1)) dt in
      let stop_distance_next = fl.mul (fl.mul v_next v_next) inv_2a in
      if not (fl.lt stop_distance dx_abs)
      then brake a v_frame dx
      else if fl.lt (fl.sub dx_abs dx_step) stop_distance_next
      then brake a v_frame dx
      else if not (fl.is_finite velocity_limit_hz) || fl.lt (abs fl v0) velocity_limit_hz
      then (if fl.lt (fl.lit 0 0) dx then a else fl.neg a)
      else fl.lit 0 0

  -- `CalculateAcceleration`
  unfoldable pub acceleration : fl.F → fl.F → fl.F → fl.F → fl.F → fl.F → fl.F
  acceleration a v0 vf dx dt velocity_limit_hz =
      let v_frame = fl.sub v0 vf in
      if fl.is_finite velocity_limit_hz && fl.lt velocity_limit_hz (abs fl v0)
      then (if fl.lt (fl.lit 0 0) v0 then fl.neg a else a)
      else if fl.le (fl.lit 0 0) (fl.mul v_frame dx) && not (fl.eq dx (fl.lit 0 0))
      then approach a v0 v_frame dx dt velocity_limit_hz
      else if fl.lt (fl.lit 0 0) v_frame
      then fl.neg a
      else a

  abbrev pub smaller : fl.F → fl.F → fl.F
  smaller x y = if fl.lt x y then x else y

  abbrev pub larger : fl.F → fl.F → fl.F
  larger x y = if fl.lt y x then x else y

  -- To the command's position with its acceleration: the velocity limit, and the arrival.
  unfoldable pub hold_limit : fl.F → fl.F → Servo fl → Servo fl
  hold_limit v0 vmax_hz s =
      let low = smaller (abs fl v0) (abs fl s.velocity_hz) in
      let high = larger (abs fl v0) (abs fl s.velocity_hz) in
      let crosses = has_velocity_limit s && (fl.lt low vmax_hz && fl.lt vmax_hz high) in
      record s {
        accel_hz_s = if crosses then fl.lit 0 0 else s.accel_hz_s;
        velocity_hz =
            if crosses
            then (if fl.le (fl.lit 0 0) s.velocity_hz then vmax_hz else fl.neg vmax_hz)
            else s.velocity_hz;
      }

  unfoldable pub has_arrived : fl.F → fl.F → fl.F → fl.F → fl.F → fl.F → Bool
  has_arrived a v0 v1 vf dx dt_s =
      let off_target = abs fl (fl.sub v1 vf) in
      let crosses = fl.le (smaller v0 v1) vf && fl.le vf (larger v0 v1) in
      let near = fl.lt off_target (fl.mul (fl.mul a (fl.lit 5 1)) dt_s) in
      let reach = fl.mul (fl.mul (larger off_target (abs fl vf)) (fl.lit 10 0)) dt_s in
      (crosses || near) && fl.le (abs fl dx) reach

  unfoldable pub arrive_if : Bool → Servo fl → Servo fl
  arrive_if true s = record s {
    command = lose_position s.command;
    accel_hz_s = fl.lit 0 0;
    velocity_hz = command_hz s;
    done = true;
  }
  arrive_if false s = s

  unfoldable pub profile : fl.F → Servo fl → Servo fl
  profile dt_s s =
      let a = turns s.command.accel_limit_rad_s2 in
      let vf = command_hz s in
      let dx = fl.sub (turns s.command.position_rad) s.position_turns in
      let vmax_hz =
        if has_velocity_limit s then turns s.command.velocity_limit_rad_s else quiet_nan fl in
      let accel = acceleration a s.velocity_hz vf dx dt_s vmax_hz in
      let moved =
        hold_limit s.velocity_hz vmax_hz (record s {
          accel_hz_s = accel;
          velocity_hz = fl.add s.velocity_hz (fl.mul accel dt_s);
        }) in
      arrive_if (has_arrived a s.velocity_hz moved.velocity_hz vf dx dt_s) moved

  -- The branches of `UpdateTrajectory` while it is not done, by whether there are a position, an
  -- acceleration limit and a velocity limit.
  unfoldable pub advance : Bool → Bool → Bool → fl.F → Servo fl → Servo fl
  advance false true velocity dt_s s = accelerate dt_s s
  advance false false velocity dt_s s = record s {
    accel_hz_s = fl.lit 0 0;
    velocity_hz = command_hz s;
    done = true;
  }
  advance true false true dt_s s = cruise dt_s s
  advance true false false dt_s s = profile dt_s s
  advance true true velocity dt_s s = profile dt_s s

  unfoldable pub advance_if : Bool → fl.F → Servo fl → Servo fl
  advance_if true dt_s s = s
  advance_if false dt_s s =
      advance (has_position s) (has_accel_limit s) (has_velocity_limit s) dt_s s

  -- Is the stop position armed, and is the control on or past it in its direction of travel?
  unfoldable pub is_armed : Servo fl → Bool
  is_armed s =
      fl.is_finite s.command.stop_position_rad
      && (fl.is_finite s.position_turns && fl.is_finite s.velocity_hz)

  unfoldable pub is_past : Servo fl → Bool
  is_past s =
      let stop_turns = turns s.command.stop_position_rad in
      (fl.lt (fl.lit 0 0) s.velocity_hz && fl.le stop_turns s.position_turns)
      || (fl.lt s.velocity_hz (fl.lit 0 0) && fl.le s.position_turns stop_turns)

  -- The stop before the integration.
  unfoldable pub hold_stop_if : Bool → Servo fl → Servo fl
  hold_stop_if true s = record s {
    accel_hz_s = fl.lit 0 0;
    velocity_hz = fl.lit 0 0;
    position_turns = turns s.command.stop_position_rad;
    command = record s.command { velocity_rad_s = fl.lit 0 0 };
    done = true;
  }
  hold_stop_if false s = s

  unfoldable pub integrate : fl.F → fl.F → Servo fl → Servo fl
  integrate dt_s v0 s =
      let mean = fl.mul (fl.lit 5 1) (fl.add v0 s.velocity_hz) in
      let rate = if not (fl.eq s.accel_hz_s (fl.lit 0 0)) then mean else s.velocity_hz in
      record s { position_turns = fl.add s.position_turns (fl.mul rate dt_s) }

  -- The branch of a command with limits.
  unfoldable pub follow_limits : fl.F → fl.F → fl.F → Servo fl → Servo fl
  follow_limits dt_s measured_turns measured_hz s =
      let moves = has_position s || fl.lt (fl.lit 0 0) (abs fl (command_hz s)) in
      let ensured =
        ensure measured_turns measured_hz (record s { done = if moves then false else s.done }) in
      let advanced = advance_if ensured.done dt_s ensured in
      integrate dt_s ensured.velocity_hz
        (hold_stop_if (is_armed advanced && is_past advanced) advanced)

  -- The parts of `FinishTrajectoryGuards`: the command's position moves with its velocity, the slip of
  -- the position and of the velocity are limited, and the control halts at the stop position.
  unfoldable pub move_target : fl.F → Servo fl → Servo fl
  move_target dt_s s =
      let v = s.command.velocity_rad_s in
      let moved = fl.add s.command.position_rad (fl.mul v dt_s) in
      record s {
        command = record s.command {
          position_rad =
              if has_position s && fl.lt (fl.lit 0 0) (abs fl v)
              then moved
              else s.command.position_rad;
        };
      }

  unfoldable pub limit_slip : fl.F → Servo fl → Servo fl
  limit_slip measured_turns s =
      let slip = turns s.options.max_position_slip_rad in
      let error = fl.sub measured_turns s.position_turns in
      let guarded =
        fl.lt (fl.lit 0 0) s.options.max_position_slip_rad && fl.is_finite s.position_turns in
      record s {
        position_turns =
            if not guarded
            then s.position_turns
            else if fl.lt error (fl.neg slip)
            then fl.add measured_turns slip
            else if fl.lt slip error
            then fl.sub measured_turns slip
            else s.position_turns;
      }

  unfoldable pub limit_velocity_error : fl.F → Servo fl → Servo fl
  limit_velocity_error measured_hz s =
      let slip = turns s.options.max_velocity_error_rad_s in
      let error = fl.sub measured_hz s.velocity_hz in
      let guarded =
        fl.lt (fl.lit 0 0) s.options.max_velocity_error_rad_s && fl.is_finite s.velocity_hz in
      let below = guarded && fl.lt error (fl.neg slip) in
      let above = guarded && fl.lt slip error in
      record s {
        accel_hz_s = if below || above then fl.lit 0 0 else s.accel_hz_s;
        velocity_hz =
            if below
            then fl.add measured_hz slip
            else if above
            then fl.sub measured_hz slip
            else s.velocity_hz;
      }

  -- Is the velocity 0 within a step's travel of the stop position?
  unfoldable pub rests_near : fl.F → Servo fl → Bool
  rests_near dt_s s =
      let v = s.command.velocity_rad_s in
      let stop_turns = turns s.command.stop_position_rad in
      let travel = fl.mul (turns (abs fl v)) dt_s in
      fl.eq s.velocity_hz (fl.lit 0 0)
      && (not (fl.eq v (fl.lit 0 0)) && fl.le (abs fl (fl.sub s.position_turns stop_turns)) travel)

  unfoldable pub halt_if : Bool → Servo fl → Servo fl
  halt_if true s = record s {
    position_turns = turns s.command.stop_position_rad;
    accel_hz_s = fl.lit 0 0;
    velocity_hz = fl.lit 0 0;
    command = record s.command { position_rad = quiet_nan fl; velocity_rad_s = fl.lit 0 0 };
    done = true;
  }
  halt_if false s = s

  unfoldable pub guard_stop : fl.F → Servo fl → Servo fl
  guard_stop dt_s s = halt_if (is_armed s && (is_past s || rests_near dt_s s)) s

  -- `FinishTrajectoryGuards`
  unfoldable pub finish_guards : fl.F → fl.F → fl.F → Servo fl → Servo fl
  finish_guards dt_s measured_turns measured_hz s =
      guard_stop dt_s
        (limit_velocity_error measured_hz (limit_slip measured_turns (move_target dt_s s)))

  -- `UpdateTrajectory`, by whether the command has a limit.
  unfoldable pub follow : Bool → fl.F → fl.F → fl.F → Servo fl → Servo fl
  follow true dt_s measured_turns measured_hz s = follow_limits dt_s measured_turns measured_hz s
  follow false dt_s measured_turns measured_hz s =
      follow_at_once (has_position s) dt_s measured_turns measured_hz s

  unfoldable pub update_trajectory : fl.F → fl.F → fl.F → Servo fl → Servo fl
  update_trajectory dt_s measured_turns measured_hz s =
      finish_guards dt_s measured_turns measured_hz
        (follow (has_velocity_limit s || has_accel_limit s) dt_s measured_turns measured_hz s)
