-- ===== src/Motor/Guard.antt =====
-- The safety monitor inside the interrupt: what its verdict does to the motor.
use spcd_actuator.Prelude.{
  ℕ, suc, ◌+◌, ◌≤◌, ◌<◌, ◌≡◌, ◌≢◌, ◌↔◌, ◌⊎◌, inl, inr, refl, sym, ap, ◌∙◌, Bool, true, false, ◌&&◌,
  ◌||◌, List, [], ◌∷◌, map, arith, length, if◌then◌else◌, Bool-cases, if_cases, leb, ◌==◌, not, ◌-◌,
  ◌%◌,
}
use mathlib.Core.Path.{subst}
use spcd_actuator.Floats.{Floats}
use spcd_actuator.Protection.Monitor.{
  Config, Monitor, Trip, nothing, peak_overcurrent, evaluate, is_over, largest,
}
use spcd_actuator.Protection.Trips.{evaluate_over}
use spcd_actuator.Motor.Parts.{
  Motor, Readings, stop, stop_finished_session, drive, power_off, pwm_stop, restore_calibration,
  disable_isr, set_bus_voltage,
}
use spcd_actuator.Motor.Isr.{
  encoder_phase_as, drive_encoder_phase, finish_velocity, velocity_as, velocity_if, drive_velocity,
  resistance_as, drive_resistance, inductance_as, drive_inductance, modulate, set_mode_refs,
  mode_as, mode_if, drive_mode, drive_session, end_step, driven_step, step_as, step_isr,
  idle_step_as, idle_step, protect, apply_protection, sample_slow_telemetry, update_encoder, push,
  power, control_active, control_dt, protection_input, is_nothing, is_capturing,
}
use spcd_actuator.Motor.Calibrate.{observe_dq}
use spcd_actuator.Motor.Moves.{off}
use spcd_actuator.Motor.Runs.{Operation, interrupt, run, operate, Known-Consistent, Move-Known}
use spcd_actuator.Motor.IsrMoves.{Known, step_isr-Move}

is_nothing_lem : (t : Trip) → t ≢ nothing → is_nothing t ≡ false
is_nothing_lem t h = ground arith

trip_or : (t : Trip) (c n : ℕ) → (t ≡ peak_overcurrent) ↔ (c ≤ n) → (t ≢ nothing) ⊎ (n < c)
trip_or t c n h = ground arith

module _ {fl : Floats} where
  -- Everything after the protection keeps the monitor and its configuration.
  abbrev Same : Motor fl → Motor fl → Type 0
  Same m n = (n.safety ≡ m.safety) × (n.protection ≡ m.protection)

  encoder_phase_as-Same :
      (b finished : Bool) (r : Readings fl) (m : Motor fl)
      → Same m (encoder_phase_as b finished r m).0
  unfolding encoder_phase_as stop_finished_session power drive
  encoder_phase_as-Same false finished r m = (refl, refl)
  encoder_phase_as-Same true false r m = (refl, refl)
  encoder_phase_as-Same true true r m = (refl, refl)

  resistance_as-Same :
      (b finished : Bool) (r : Readings fl) (m : Motor fl) → Same m (resistance_as b finished r m).0
  unfolding resistance_as stop_finished_session power drive
  resistance_as-Same false finished r m = (refl, refl)
  resistance_as-Same true false r m = (refl, refl)
  resistance_as-Same true true r m = (refl, refl)

  inductance_as-Same :
      (b finished : Bool) (r : Readings fl) (m : Motor fl) → Same m (inductance_as b finished r m).0
  unfolding inductance_as stop_finished_session modulate power observe_dq
  inductance_as-Same false finished r m = (refl, refl)
  inductance_as-Same true false r m = (refl, refl)
  inductance_as-Same true true r m = (refl, refl)

  finish_velocity-Same :
      (b : Bool) (r : Readings fl) (m : Motor fl) → Same m (finish_velocity b r m)
  unfolding finish_velocity stop_finished_session
  finish_velocity-Same false r m = (refl, refl)
  finish_velocity-Same true r m = (refl, refl)

  velocity_as-Same :
      (b finished : Bool) (r : Readings fl) (m : Motor fl) → Same m (velocity_as b finished r m).0
  unfolding velocity_as power drive
  velocity_as-Same false finished r m = (refl, refl)
  velocity_as-Same true false r m = (refl, refl)
  velocity_as-Same true true r m = finish_velocity-Same _ r _

  velocity_if-Same :
      (b faulted : Bool) (r : Readings fl) (m : Motor fl) → Same m (velocity_if b faulted r m).0
  unfolding velocity_if stop
  velocity_if-Same false faulted r m = (refl, refl)
  velocity_if-Same true true r m = (refl, refl)
  velocity_if-Same true false r m = velocity_as-Same _ _ r _

  mode_as-Same : (b : Bool) (r : Readings fl) (m : Motor fl) → Same m (mode_as b r m).0
  unfolding mode_as power drive
  mode_as-Same false r m = (refl, refl)
  mode_as-Same true r m = (refl, refl)

  mode_if-Same :
      (b faulted : Bool) (r : Readings fl) (m : Motor fl) → Same m (mode_if b faulted r m).0
  unfolding mode_if stop set_mode_refs
  mode_if-Same false faulted r m = (refl, refl)
  mode_if-Same true true r m = (refl, refl)
  mode_if-Same true false r m = mode_as-Same _ r _

  drive_session-Same : (r : Readings fl) (m : Motor fl) → Same m (drive_session r m).0
  unfolding drive_session drive_encoder_phase drive_velocity drive_resistance drive_inductance
      drive_mode
  drive_session-Same r m =
      session m.on.encoder_phase_active (m.on.bemf_active || m.on.cogging_active)
        m.on.resistance_active m.on.inductance_active
    where
      session :
          (b1 b2 b3 b4 : Bool)
          → Same m
              (if b1
                then drive_encoder_phase r m
                else if b2
                then drive_velocity r m
                else if b3
                then drive_resistance r m
                else if b4
                then drive_inductance r m
                else drive_mode r m).0
      session true b2 b3 b4 = encoder_phase_as-Same _ _ r _
      session false true b3 b4 = velocity_if-Same _ _ r _
      session false false true b4 = resistance_as-Same _ _ r _
      session false false false true = inductance_as-Same _ _ r _
      session false false false false = mode_if-Same _ _ r _

  end_step-Same :
      (dt_s : fl.F) (r : Readings fl) (p : Motor fl × Bool) → Same p.0 (end_step dt_s r p)
  unfolding end_step push
  end_step-Same dt_s r (m, true) = (refl, refl)
  end_step-Same dt_s r (m, false) = (refl, refl)

  protect-Same :
      (b : Bool) (dt_s : fl.F) (r : Readings fl) (m : Motor fl)
      → Same m (driven_step dt_s r (protect b m))
        × (b ≡ false → (driven_step dt_s r (protect b m)).on ≡ off)
  unfolding driven_step protect stop update_encoder
  protect-Same true dt_s r m =
      let (s, p) = drive_session-Same r _ in
      let (t, q) = end_step-Same dt_s r _ in ((t ∙ s, q ∙ p), λ e. cc)
  protect-Same false dt_s r m = ((refl, refl), λ e. refl)

  -- The evaluation of the interrupt's step.
  abbrev pub verdict : Readings fl → Motor fl → Monitor fl
  verdict r m =
      evaluate fl m.protection (protection_input (control_dt m.last_control_us r) r) m.safety

  -- In a step of the interrupt that has something to control, the monitor and nothing else changes
  -- the protection's state, and whatever is driven, a trip turns everything off.
  pub step_isr_trip :
      (r : Readings fl) (m : Motor fl)
      → control_active m.on ≡ true
      → ((step_isr r m).safety ≡ verdict r m)
        × ((step_isr r m).protection ≡ m.protection)
        × ((verdict r m).last_trip ≢ nothing → (step_isr r m).on ≡ off)
  unfolding step_isr step_as apply_protection sample_slow_telemetry
  step_isr_trip r m h =
      let ((s, p), t) =
        protect-Same (is_nothing (verdict r m).last_trip) (control_dt m.last_control_us r) r _ in
      rw h (s, p, λ e. t (is_nothing_lem _ e))

  protect_stops :
      (dt_s : fl.F) (r : Readings fl) (m : Motor fl)
      → ((driven_step dt_s r (protect false m)).on ≡ off)
        × ((driven_step dt_s r (protect false m)).calls
            ≡ power_off ∷ pwm_stop ∷ restore_calibration ∷ disable_isr ∷ m.calls)
  unfolding driven_step protect stop
  protect_stops dt_s r m = (refl, refl)

  -- In a step of the interrupt that has something to control, each trip turns everything off, and
  -- the step's calls are the bus voltage to the controllers, where it was measured, and then those
  -- that turn off the interrupt, the calibration, the PWM and the power; no duty is set.
  pub trip_stops :
      (r : Readings fl) (m : Motor fl)
      → control_active m.on ≡ true
      → (verdict r m).last_trip ≢ nothing
      → ((step_isr r m).on ≡ off)
        × ((step_isr r m).calls
            ≡ power_off
              ∷ pwm_stop
              ∷ restore_calibration
              ∷ disable_isr
              ∷ (if r.bus_ok then set_bus_voltage r.bus_V ∷ m.calls else m.calls))
  unfolding step_isr step_as apply_protection sample_slow_telemetry
  trip_stops r m h t = rw h (rw (is_nothing_lem _ t) (protect_stops _ r _))

  -- Steps of the interrupt one after the other.
  abbrev pub interrupts : List (Readings fl) → List (Operation fl × Readings fl)
  interrupts rs = map (λ r. (interrupt, r)) rs

  idle-unpowered :
      (a b : Bool) (dt_s : fl.F) (r : Readings fl) (m : Motor fl)
      → m.on.powered ≡ false
      → (idle_step_as a b dt_s r m).on.powered ≡ false
  unfolding idle_step_as update_encoder push
  idle-unpowered true b dt_s r m h = h
  idle-unpowered false true dt_s r m h = h
  idle-unpowered false false dt_s r m h = h

  step_isr-unpowered :
      (r : Readings fl) (m : Motor fl)
      → Known m.on
      → m.on.powered ≡ false
      → (step_isr r m).on.powered ≡ false
  unfolding step_isr step_as idle_step
  step_isr-unpowered r m k h =
      rw (sym (Known-Consistent k).power ∙ h)
        (idle-unpowered (is_capturing m.snapshot.state) m.on.isr_on _ r _ h)

  -- The interrupt does not turn the power on.
  pub interrupts-unpowered :
      (rs : List (Readings fl)) (m : Motor fl)
      → Known m.on
      → m.on.powered ≡ false
      → (run (interrupts rs) m).on.powered ≡ false
  unfolding run operate
  interrupts-unpowered [] m k h = h
  interrupts-unpowered (r ∷ rs) m k h =
      interrupts-unpowered rs (step_isr r m) (Move-Known (step_isr-Move r m k) k)
        (step_isr-unpowered r m k h)

  -- A current was measured in each of the steps, and is over the limit.
  abbrev pub IsOver : Config fl → Readings fl → Type 0
  IsOver c r = (r.sample.ok ≡ true) × (is_over fl c (protection_input (fl.lit 0 0) r) ≡ true)

  abbrev pub AllOver : Config fl → List (Readings fl) → Type 0
  AllOver c [] = Unit {0}
  AllOver c (r ∷ rs) = IsOver c r × AllOver c rs

  verdict-over :
      (r : Readings fl) (m : Motor fl)
      → IsOver m.protection r
      → m.safety.overcurrent_count < 255
      → ((verdict r m).overcurrent_count ≡ suc m.safety.overcurrent_count)
        × (((verdict r m).last_trip ≢ nothing)
            ⊎ (suc m.safety.overcurrent_count < m.protection.overcurrent_count))
  unfolding is_over largest protection_input
  verdict-over r m (ok, over) h =
      let (s, t) =
        evaluate_over fl m.protection (protection_input (control_dt m.last_control_us r) r) m.safety
          ok over h in
      (s, trip_or _ _ _ t)

  over_step :
      (r : Readings fl) (m : Motor fl)
      → Known m.on
      → IsOver m.protection r
      → m.safety.overcurrent_count < 255
      → ((step_isr r m).on.powered ≡ false)
        ⊎ (((step_isr r m).safety.overcurrent_count ≡ suc m.safety.overcurrent_count)
            × ((step_isr r m).protection ≡ m.protection)
            × (suc m.safety.overcurrent_count < m.protection.overcurrent_count))
  over_step r m k o h = elim (Bool-cases (control_active m.on)) [
    | inr idle ↦ inl (step_isr-unpowered r m k ((Known-Consistent k).power ∙ idle))
    | inl active ↦
        let (safe, same, stops) = step_isr_trip r m active in
        let (counted, trip) = verdict-over r m o h in
        elim trip [
          | inl t ↦ inl (rw (stops t) refl)
          | inr more ↦ inr (ap (λ s. s.overcurrent_count) safe ∙ counted, same, more)
        ]
  ]

  -- Where each step of the interrupt measures a current over the limit, and the steps with the count
  -- before them reach the configured number and stay below 256, the power is off after the steps,
  -- whatever mode or session was driven.
  pub overcurrent_stops :
      (r : Readings fl) (rs : List (Readings fl)) (m : Motor fl)
      → Known m.on
      → AllOver m.protection (r ∷ rs)
      → m.protection.overcurrent_count ≤ m.safety.overcurrent_count + length (r ∷ rs)
      → m.safety.overcurrent_count + length (r ∷ rs) < 256
      → (run (interrupts (r ∷ rs)) m).on.powered ≡ false
  unfolding run operate
  overcurrent_stops r [] m k (o, os) le lt = elim (over_step r m k o (omega arith)) [
    | inl stopped ↦ stopped
    | inr (counted, same, more) ↦ absurd (omega arith)
  ]
  overcurrent_stops r (x ∷ rs) m k (o, os) le lt = elim (over_step r m k o (omega arith)) [
    | inl stopped ↦
        interrupts-unpowered (x ∷ rs) (step_isr r m) (Move-Known (step_isr-Move r m k) k) stopped
    | inr (counted, same, more) ↦
        overcurrent_stops x rs (step_isr r m) (Move-Known (step_isr-Move r m k) k)
          (subst (λ c. AllOver c (x ∷ rs)) (sym same) os) (rw same (rw counted (omega arith)))
          (rw counted (omega arith))
  ]

  -- The step's time is the period of the PWM, or it is the time from the last step to now on the
  -- 16-bit timer, which then lies from 20 to 500 µs.
  pub control_dt_lem :
      (last_control_us : ℕ) (r : Readings fl)
      → last_control_us < 65536
      → r.now_us < 65536
      → (control_dt last_control_us r ≡ r.period_s)
        ⊎ ((dt_us : ℕ) × (control_dt last_control_us r ≡ fl.mul (fl.of_u32 dt_us) (fl.lit 1 6))
            × (20 ≤ dt_us)
            × (dt_us ≤ 500)
            × ((last_control_us + dt_us) % 65536 ≡ r.now_us))
  unfolding control_dt
  control_dt_lem last_control_us r h k =
      let dt_us = (r.now_us + 65536 - last_control_us) % 65536 in
      if_cases
        (λ t.
          (t ≡ r.period_s)
          ⊎ ((dt : ℕ) × (t ≡ fl.mul (fl.of_u32 dt) (fl.lit 1 6))
              × (20 ≤ dt)
              × (dt ≤ 500)
              × ((last_control_us + dt) % 65536 ≡ r.now_us)))
        (not (last_control_us == 0) && (leb 20 dt_us && leb dt_us 500)) _ _
        (λ e. inr (dt_us, refl, ground arith, ground arith, omega arith)) (λ e. inl refl)
