-- ===== src/Control/Bounds.antt =====
-- The limits of the controllers: what they leave is never outside of them; a float that is not a
-- number passes every limit.
use spcd_actuator.Prelude.{◌≡◌, true, false, if◌then◌else◌, if_cases}
use spcd_actuator.Floats.{Floats}
use spcd_actuator.Control.Pid.{Config, Scales, State, limit, apply_pid}
use spcd_actuator.Control.Mit.{Mode, max_torque, step, step_if}

-- The value is neither below the lower bound nor above the upper one; one that is not a number is
-- neither, so this is less than to lie between the bounds.
abbrev pub IsNotOutside : (fl : Floats) → fl.F → fl.F → fl.F → Type 0
IsNotOutside fl lo hi x = (fl.lt x lo ≡ false) × (fl.lt hi x ≡ false)

module _ (fl : Floats) (irreflexive : (x : fl.F) → fl.lt x x ≡ false) where
  pub limit-IsNotOutside :
      (a lo hi : fl.F) → fl.lt hi lo ≡ false → IsNotOutside fl lo hi (limit fl a lo hi)
  unfolding limit
  limit-IsNotOutside a lo hi h =
      if_cases (IsNotOutside fl lo hi) (fl.lt a lo) lo (if fl.lt hi a then hi else a)
        (λ e. (irreflexive lo, h))
        (λ low.
          if_cases (IsNotOutside fl lo hi) (fl.lt hi a) hi a (λ e. (h, irreflexive hi))
            (λ high. (low, high)))

  -- Where a float is not less than itself, and the limits of the current and of the torque are not
  -- negative, the torque of a step of the active MIT mode is not outside the limit of the command, or
  -- of the options where that is no number, and its current not outside the limit of the options.
  pub step-IsNotOutside :
      (position_rad velocity_rad_s : fl.F) (m : Mode fl)
      → m.active ≡ true
      → fl.lt (max_torque fl m) (fl.neg (max_torque fl m)) ≡ false
      → fl.lt m.options.max_iq_A (fl.neg m.options.max_iq_A) ≡ false
      → IsNotOutside fl
          (fl.neg (max_torque fl m))
          (max_torque fl m)
          (step fl position_rad velocity_rad_s m).torque_Nm
        × IsNotOutside fl
            (fl.neg m.options.max_iq_A)
            m.options.max_iq_A
            (step fl position_rad velocity_rad_s m).iq_ref
  unfolding step step_if max_torque
  step-IsNotOutside position_rad velocity_rad_s m active t i =
      rw active (limit-IsNotOutside _ _ _ t, limit-IsNotOutside _ _ _ i)

  -- The integral of the PID is not outside its limit after a step, whatever it was before.
  pub apply_pid-IsNotOutside :
      (c : Config fl) (o : Scales fl)
      (measured input_desired measured_rate input_desired_rate period_s : fl.F) (s : State fl)
      → fl.lt (fl.mul c.ilimit o.ilimit_scale) (fl.neg (fl.mul c.ilimit o.ilimit_scale)) ≡ false
      → IsNotOutside fl
          (fl.neg (fl.mul c.ilimit o.ilimit_scale))
          (fl.mul c.ilimit o.ilimit_scale)
          (apply_pid fl c o measured input_desired measured_rate input_desired_rate period_s
            s).integral
  unfolding apply_pid
  apply_pid-IsNotOutside c o measured input_desired measured_rate input_desired_rate period_s s h =
      limit-IsNotOutside _ _ _ h
