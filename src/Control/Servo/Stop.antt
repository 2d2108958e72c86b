-- ===== src/Control/Servo/Stop.antt =====
-- The servo mode at its stop position.
use spcd_actuator.Prelude.{◌≡◌, refl, ◌∙◌, ap, Bool, true, false, ◌&&◌, ◌||◌}
use spcd_actuator.Floats.{Floats}
use spcd_actuator.Control.Pid
use spcd_actuator.Control.Servo.{Servo}
use spcd_actuator.Control.Servo.Trajectory.{
  is_armed, is_past, halt_if, guard_stop, finish_guards, update_trajectory,
}
use spcd_actuator.Control.Servo.Step.{put_torque, finish_if, finish, step_if, step}

-- Nothing but the test holds it back.
or_first : (a b c : Bool) → (a && (b || c)) ≡ false → (a && b) ≡ false
or_first true true c h = h
or_first true false c h = refl
or_first false b c h = refl

and_false : (a : Bool) → (a && false) ≡ false
and_false true = refl
and_false false = refl

module _ (fl : Floats) (irreflexive : (x : fl.F) → fl.lt x x ≡ false) where
  -- The stop position is armed and the control moves away from it or has not reached it.
  halted : (s : Servo fl) → is_past fl (halt_if fl true s) ≡ false
  unfolding halt_if is_past
  halted s = rw (irreflexive (fl.lit 0 0)) refl

  halt_if-past :
      (b : Bool) (s : Servo fl)
      → (b ≡ false → (is_armed fl s && is_past fl s) ≡ false)
      → (is_armed fl (halt_if fl b s) && is_past fl (halt_if fl b s)) ≡ false
  unfolding halt_if
  halt_if-past true s h = ap (λ p. is_armed fl (halt_if fl true s) && p) (halted s) ∙ and_false _
  halt_if-past false s h = h refl

  guard_stop-past :
      (dt_s : fl.F) (s : Servo fl)
      → (is_armed fl (guard_stop fl dt_s s) && is_past fl (guard_stop fl dt_s s)) ≡ false
  unfolding guard_stop
  guard_stop-past dt_s s = halt_if-past _ s (or_first (is_armed fl s) (is_past fl s) _)

  -- What follows the trajectory in a step leaves it.
  finish_if-past :
      (b : Bool) (torque : fl.F) (p : spcd_actuator.Control.Pid.State fl) (s : Servo fl)
      → (is_armed fl s && is_past fl s) ≡ false
      → (is_armed fl (finish_if fl b torque p s) && is_past fl (finish_if fl b torque p s)) ≡ false
  unfolding finish_if put_torque is_armed is_past
  finish_if-past true torque p s h = h
  finish_if-past false torque p s h = h

  -- After a step of the servo, where a stop position is armed, the control does not move on from it:
  -- it is not on or past the stop position in the direction in which it moves.
  pub step-past :
      (dt_s measured_position_rad measured_velocity_rad_s : fl.F) (s : Servo fl)
      → s.active ≡ true
      → s.faulted ≡ false
      → (is_armed fl (step fl dt_s measured_position_rad measured_velocity_rad_s s).0
          && is_past fl (step fl dt_s measured_position_rad measured_velocity_rad_s s).0)
        ≡ false
  unfolding step step_if finish update_trajectory finish_guards
  step-past dt_s position_rad velocity_rad_s s a f =
      rw a (rw f (finish_if-past _ _ _ _ (guard_stop-past _ _)))
