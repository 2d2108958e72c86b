-- ===== src/Control/Servo/Limits.antt =====
-- Whole runs of the servo mode: the limits of a step after them, and the fault flag.
use spcd_actuator.Prelude.{
  ◌≡◌, ◌⊎◌, inl, inr, refl, sym, ◌∙◌, Bool, true, false, not, if◌then◌else◌, List, [], ◌∷◌, arith,
}
use mathlib.Core.Path.{subst}
use spcd_actuator.Floats.{Floats}
use spcd_actuator.Link.Commands.{ServoCommand}
use spcd_actuator.Control.Pid
use spcd_actuator.Calibration.Reboot.{&&-first}
use spcd_actuator.Control.Bounds.{IsNotOutside, limit-IsNotOutside}
use spcd_actuator.Control.Servo.{
  Options, Servo, start, start_at, stop, set_command, set_velocity, set_position, set_id_ref,
  set_options, set_torque_constant,
}
use spcd_actuator.Control.Servo.Trajectory.{
  capture, ensure, follow_at_once, accelerate, cruise, hold_limit, arrive_if, profile, advance,
  advance_if, hold_stop_if, integrate, follow_limits, move_target, limit_slip, limit_velocity_error,
  halt_if, guard_stop, finish_guards, follow, update_trajectory,
}
use spcd_actuator.Control.Servo.Step.{
  max_torque, current_of, put_torque, finish_if, finish, step_if, step,
}

-- The operations of `ServoMode`.
pub data Operation (fl : Floats) : Type 0 where
  do_start do_set_command : ServoCommand fl → Operation fl
  do_start_at : fl.F → fl.F → fl.F → Operation fl
  do_stop : Operation fl
  do_set_options : Options fl → Operation fl
  do_set_torque_constant : fl.F → Operation fl
  do_set_velocity do_set_position do_set_id_ref : fl.F → Operation fl
  -- the time, the measured position and velocity
  do_step : fl.F → fl.F → fl.F → Operation fl

unfoldable pub operate : (fl : Floats) → Operation fl → Servo fl → Servo fl
operate fl (do_start c) s = start fl c s
operate fl (do_set_command c) s = set_command fl c s
operate fl (do_start_at p v i) s = start_at fl p v i s
operate fl do_stop s = stop fl s
operate fl (do_set_options o) s = set_options fl o s
operate fl (do_set_torque_constant k) s = set_torque_constant fl k s
operate fl (do_set_velocity v) s = set_velocity fl v s
operate fl (do_set_position p) s = set_position fl p s
operate fl (do_set_id_ref i) s = set_id_ref fl i s
operate fl (do_step dt_s p v) s = (step fl dt_s p v s).0

unfoldable pub run : (fl : Floats) → List (Operation fl) → Servo fl → Servo fl
run fl [] s = s
run fl (o ∷ os) s = run fl os (operate fl o s)

no_step : false ≡ true → ⊥
no_step e = cc

module _ (fl : Floats) where
  -- What the trajectory keeps.
  abbrev Same : Servo fl → Servo fl → Type 0
  Same s t =
      (t.options ≡ s.options)
      × (t.active ≡ s.active)
      × (t.faulted ≡ s.faulted)
      × (t.command.max_torque_Nm ≡ s.command.max_torque_Nm)

  follow_at_once-Same :
      (b : Bool) (dt_s p v : fl.F) (s : Servo fl) → Same s (follow_at_once fl b dt_s p v s)
  unfolding follow_at_once ensure capture
  follow_at_once-Same true dt_s p v s = (refl, refl, refl, refl)
  follow_at_once-Same false dt_s p v s = (refl, refl, refl, refl)

  kept_torque :
      (b : Bool) (nowhere : fl.F) (c : ServoCommand fl)
      → (if b then record c { position_rad = nowhere } else c).max_torque_Nm ≡ c.max_torque_Nm
  kept_torque true nowhere c = refl
  kept_torque false nowhere c = refl

  arrive_if-Same : (b : Bool) (s t : Servo fl) → Same s t → Same s (arrive_if fl b t)
  unfolding arrive_if
  arrive_if-Same true s t h = h
  arrive_if-Same false s t h = h

  advance-Same :
      (p a v : Bool) (dt_s : fl.F) (s t : Servo fl) → Same s t → Same s (advance fl p a v dt_s t)
  unfolding advance accelerate cruise profile hold_limit
  advance-Same false true v dt_s s t h = h
  advance-Same false false v dt_s s t h = h
  advance-Same true false true dt_s s t h = (h.0, h.1, h.2, kept_torque _ _ t.command ∙ h.3)
  advance-Same true false false dt_s s t h = arrive_if-Same _ s _ h
  advance-Same true true v dt_s s t h = arrive_if-Same _ s _ h

  advance_if-Same :
      (b : Bool) (dt_s : fl.F) (s t : Servo fl) → Same s t → Same s (advance_if fl b dt_s t)
  unfolding advance_if
  advance_if-Same true dt_s s t h = h
  advance_if-Same false dt_s s t h = advance-Same _ _ _ dt_s s t h

  hold_stop_if-Same : (b : Bool) (s t : Servo fl) → Same s t → Same s (hold_stop_if fl b t)
  unfolding hold_stop_if
  hold_stop_if-Same true s t h = h
  hold_stop_if-Same false s t h = h

  halt_if-Same : (b : Bool) (s t : Servo fl) → Same s t → Same s (halt_if fl b t)
  unfolding halt_if
  halt_if-Same true s t h = h
  halt_if-Same false s t h = h

  follow-Same : (b : Bool) (dt_s p v : fl.F) (s : Servo fl) → Same s (follow fl b dt_s p v s)
  unfolding follow follow_limits integrate ensure capture
  follow-Same true dt_s p v s =
      hold_stop_if-Same _ s _ (advance_if-Same _ dt_s s _ (refl, refl, refl, refl))
  follow-Same false dt_s p v s = follow_at_once-Same _ dt_s p v s

  update_trajectory-Same :
      (dt_s p v : fl.F) (s : Servo fl) → Same s (update_trajectory fl dt_s p v s)
  unfolding update_trajectory finish_guards guard_stop limit_velocity_error limit_slip move_target
  update_trajectory-Same dt_s p v s = halt_if-Same _ s _ (follow-Same _ dt_s p v s)

  -- The servo has no fault, and where it is stopped neither torque nor current.
  pub record IsSettled (s : Servo fl) : Type 0 where
    pub sound : s.faulted ≡ false
    pub still :
        (s.active ≡ true)
        ⊎ ((s.active ≡ false) × (s.iq_ref ≡ fl.lit 0 0) × (s.torque_Nm ≡ fl.lit 0 0))

  -- The current and the torque are not outside the limits that are in force.
  pub record IsLimited (s : Servo fl) : Type 0 where
    pub current : IsNotOutside fl (fl.neg s.options.max_iq_A) s.options.max_iq_A s.iq_ref
    pub torque : IsNotOutside fl (fl.neg (max_torque fl s)) (max_torque fl s) s.torque_Nm

  finish_if-Same :
      (b : Bool) (torque : fl.F) (p : spcd_actuator.Control.Pid.State fl) (s t : Servo fl)
      → Same s t
      → Same s (finish_if fl b torque p t)
  unfolding finish_if put_torque
  finish_if-Same true torque p s t h = h
  finish_if-Same false torque p s t h = h

  step_if-Same : (b : Bool) (dt_s p v : fl.F) (s : Servo fl) → Same s (step_if fl b dt_s p v s).0
  unfolding step_if finish
  step_if-Same false dt_s p v s = (refl, refl, refl, refl)
  step_if-Same true dt_s p v s = finish_if-Same _ _ _ s _ (update_trajectory-Same _ _ _ s)

  step_if-IsSettled :
      (b : Bool) (dt_s p v : fl.F) (s : Servo fl)
      → (b ≡ true → s.active ≡ true)
      → IsSettled s
      → IsSettled (step_if fl b dt_s p v s).0
  unfolding step_if
  step_if-IsSettled false dt_s p v s a h = h
  step_if-IsSettled true dt_s p v s a h =
      let t = step_if-Same true dt_s p v s in
      record { sound = t.2 ∙ h.sound; still = inl (t.1 ∙ a refl) }

  operate-IsSettled : (c : Operation fl) (s : Servo fl) → IsSettled s → IsSettled (operate fl c s)
  unfolding operate start start_at stop set_command set_velocity set_position set_id_ref set_options
      set_torque_constant step
  operate-IsSettled (do_start c) s h = record { sound = refl; still = inl refl }
  operate-IsSettled (do_start_at p v i) s h = record { sound = refl; still = inl refl }
  operate-IsSettled do_stop s h = record { sound = refl; still = inr (refl, refl, refl) }
  operate-IsSettled (do_set_options o) s h = record { sound = h.sound; still = h.still }
  operate-IsSettled (do_set_torque_constant k) s h = record { sound = h.sound; still = h.still }
  operate-IsSettled (do_set_command c) s h = record { sound = h.sound; still = h.still }
  operate-IsSettled (do_set_velocity v) s h = record { sound = h.sound; still = h.still }
  operate-IsSettled (do_set_position p) s h = record { sound = h.sound; still = h.still }
  operate-IsSettled (do_set_id_ref i) s h = record { sound = h.sound; still = h.still }
  operate-IsSettled (do_step dt_s p v) s h =
      step_if-IsSettled _ dt_s p v s (&&-first s.active (not s.faulted)) h

  run-IsSettled : (os : List (Operation fl)) (s : Servo fl) → IsSettled s → IsSettled (run fl os s)
  unfolding run
  run-IsSettled [] s h = h
  run-IsSettled (c ∷ os) s h = run-IsSettled os (operate fl c s) (operate-IsSettled c s h)

module _ (fl : Floats) (irreflexive : (x : fl.F) → fl.lt x x ≡ false) where
  current_of-IsNotOutside :
      (o : Options fl) (torque : fl.F)
      → fl.lt o.max_iq_A (fl.neg o.max_iq_A) ≡ false
      → IsNotOutside fl (fl.neg o.max_iq_A) o.max_iq_A (current_of fl o torque)
  unfolding current_of
  current_of-IsNotOutside o torque i = limit-IsNotOutside fl irreflexive _ _ _ i

  finish_if-IsLimited :
      (b : Bool) (torque : fl.F) (p : spcd_actuator.Control.Pid.State fl) (t : Servo fl)
      → fl.lt t.options.max_iq_A (fl.neg t.options.max_iq_A) ≡ false
      → fl.lt (max_torque fl t) (fl.neg (max_torque fl t)) ≡ false
      → IsNotOutside fl (fl.neg (max_torque fl t)) (max_torque fl t) torque
      → IsLimited fl (finish_if fl b torque p t)
  unfolding finish_if put_torque max_torque
  finish_if-IsLimited true torque p t i m h = record {
    current = current_of-IsNotOutside t.options _ i;
    torque = limit-IsNotOutside fl irreflexive _ _ _ m;
  }
  finish_if-IsLimited false torque p t i m h = record {
    current = current_of-IsNotOutside t.options _ i;
    torque = h;
  }

  finish-IsLimited :
      (p : spcd_actuator.Control.Pid.State fl) (t : Servo fl)
      → fl.lt t.options.max_iq_A (fl.neg t.options.max_iq_A) ≡ false
      → fl.lt (max_torque fl t) (fl.neg (max_torque fl t)) ≡ false
      → IsLimited fl (finish fl p t)
  unfolding finish
  finish-IsLimited p t i m =
      finish_if-IsLimited _ _ _ t i m (limit-IsNotOutside fl irreflexive _ _ _ m)

  Same-max_torque : (s t : Servo fl) → Same fl s t → max_torque fl t ≡ max_torque fl s
  unfolding max_torque
  Same-max_torque s t h = rw (h.0, h.3) refl

  -- What a step leaves: the active servo goes on, with its current and its torque not outside the
  -- limits, and the stopped one has neither.
  abbrev pub IsStepped : Servo fl → Type 0
  IsStepped s =
      ((s.active ≡ true) × IsLimited fl s)
      ⊎ ((s.active ≡ false) × (s.iq_ref ≡ fl.lit 0 0) × (s.torque_Nm ≡ fl.lit 0 0))

  step_if-IsStepped :
      (b : Bool) (dt_s p v : fl.F) (s : Servo fl)
      → (b ≡ true → s.active ≡ true)
      → (s.active ≡ true → b ≡ true)
      → IsSettled fl s
      → fl.lt s.options.max_iq_A (fl.neg s.options.max_iq_A) ≡ false
      → fl.lt (max_torque fl s) (fl.neg (max_torque fl s)) ≡ false
      → IsStepped (step_if fl b dt_s p v s).0
  unfolding step_if
  step_if-IsStepped false dt_s p v s a c h i m = elim h.still [
    | inl e ↦ absurd (no_step (c e))
    | inr e ↦ inr e
  ]
  step_if-IsStepped true dt_s p v s a c h i m =
      let t = update_trajectory-Same fl _ _ _ s in
      inl (
        (step_if-Same fl true dt_s p v s).1 ∙ a refl,
        finish-IsLimited _ _
            (subst (λ (o : Options fl). fl.lt o.max_iq_A (fl.neg o.max_iq_A) ≡ false) (sym t.0) i)
            (subst (λ x. fl.lt x (fl.neg x) ≡ false) (sym (Same-max_torque s _ t)) m),
      )

  -- Where a float is not less than itself: after any run of the operations of the servo mode, new
  -- options and torque constants among them, from a servo without a fault that has neither torque nor
  -- current where it is stopped, no fault is reported; and a step after that run, where the limits of
  -- the current and of the torque that are then in force are not negative, leaves either an active
  -- servo with a current and a torque that are neither below nor above those limits, or a stopped one
  -- without torque and current. A float that is not a number is neither below nor above.
  pub run-IsLimited :
      (os : List (Operation fl)) (s : Servo fl) (dt_s p v : fl.F)
      → IsSettled fl s
      → fl.lt (run fl os s).options.max_iq_A (fl.neg (run fl os s).options.max_iq_A) ≡ false
      → fl.lt (max_torque fl (run fl os s)) (fl.neg (max_torque fl (run fl os s))) ≡ false
      → ((run fl os s).faulted ≡ false) × IsStepped (step fl dt_s p v (run fl os s)).0
  unfolding step
  run-IsLimited os s dt_s p v h i m =
      let t = run-IsSettled fl os s h in
      (
        t.sound,
        step_if-IsStepped _ dt_s p v (run fl os s)
            (&&-first (run fl os s).active (not (run fl os s).faulted))
            (λ e. ground (arith, t.sound)) t i m,
      )
