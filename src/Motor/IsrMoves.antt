-- ===== src/Motor/IsrMoves.antt =====
-- The interrupt's step is one of the moves of the switches, from every state that the service
-- can be in.
use spcd_actuator.Prelude.{◌≡◌, refl, Bool, true, false, ◌||◌}
use spcd_actuator.Floats.{Floats}
use spcd_actuator.Motor.Parts.{
  servo, current, mit, Switches, Motor, Readings, stop, stop_finished_session, drive,
}
use spcd_actuator.Motor.Isr.{
  encoder_phase_as, drive_encoder_phase, finish_velocity, velocity_as, velocity_if, drive_velocity,
  resistance_as, drive_resistance, inductance_as, drive_inductance, modulate, set_mode_refs,
  mode_as, mode_if, drive_mode, drive_session, end_step, driven_step, step_as, step_isr,
  idle_step_as, idle_step, protect, apply_protection, sample_slow_telemetry, update_encoder, push,
  power, control_active,
}
use spcd_actuator.Motor.Calibrate.{observe_dq}
use spcd_actuator.Motor.Moves.{
  off, driving, Session, encoder_phase, bemf, cogging, resistance, inductance, calibrating, ended,
  Move, stay, halt, end_calibration, end_isr,
}

-- The switches that the service can have.
pub data Known : Switches → Type 0 where
  is_off : Known off
  is_ended : Known ended
  is_servo : Known (record (driving servo) { servo_active = true })
  is_current : Known (driving current)
  is_mit : Known (record (driving mit) { mit_active = true })
  is_calibrating : (k : Session) → Known (calibrating k)

module _ {fl : Floats} where
  abbrev at : Switches → Motor fl → Motor fl
  at s m = record m { on = s }

  end_step-Move :
      {s : Switches} (dt_s : fl.F) (r : Readings fl) (p : Motor fl × Bool)
      → Move s p.0.on
      → Move s (end_step dt_s r p).on
  unfolding end_step push
  end_step-Move dt_s r (m, true) x = x
  end_step-Move dt_s r (m, false) x = x

  -- The protection lets the step go on or stops the motor.
  protect-Move :
      {s : Switches} (b : Bool) (dt_s : fl.F) (r : Readings fl) (m : Motor fl)
      → Move s
          (drive_session r
            (update_encoder (r.encoder_valid || m.on.encoder_phase_active) dt_s m)).0.on
      → Move s (driven_step dt_s r (protect b m)).on
  unfolding driven_step protect stop
  protect-Move true dt_s r m x = end_step-Move dt_s r _ x
  protect-Move false dt_s r m x = halt

  encoder_phase-Move :
      (b finished : Bool) (r : Readings fl) (m : Motor fl)
      → m.on ≡ calibrating encoder_phase
      → Move (calibrating encoder_phase) (encoder_phase_as b finished r m).0.on
  unfolding encoder_phase_as stop_finished_session power drive
  encoder_phase-Move false finished r m x = rw x stay
  encoder_phase-Move true false r m x = rw x stay
  encoder_phase-Move true true r m x = rw x (end_calibration encoder_phase)

  resistance-Move :
      (b finished : Bool) (r : Readings fl) (m : Motor fl)
      → m.on ≡ calibrating resistance
      → Move (calibrating resistance) (resistance_as b finished r m).0.on
  unfolding resistance_as stop_finished_session power drive
  resistance-Move false finished r m x = rw x stay
  resistance-Move true false r m x = rw x stay
  resistance-Move true true r m x = rw x (end_calibration resistance)

  inductance-Move :
      (b finished : Bool) (r : Readings fl) (m : Motor fl)
      → m.on ≡ calibrating inductance
      → Move (calibrating inductance) (inductance_as b finished r m).0.on
  unfolding inductance_as stop_finished_session power modulate observe_dq
  inductance-Move false finished r m x = rw x stay
  inductance-Move true false r m x = rw x stay
  inductance-Move true true r m x = rw x (end_calibration inductance)

  bemf-Move :
      (b finished : Bool) (r : Readings fl) (m : Motor fl)
      → m.on ≡ calibrating bemf
      → Move (calibrating bemf) (velocity_as b finished r m).0.on
  unfolding velocity_as finish_velocity stop_finished_session power drive
  bemf-Move false finished r m x = rw x stay
  bemf-Move true false r m x = rw x stay
  bemf-Move true true r m x = rw x (end_calibration bemf)

  bemf_if-Move :
      (b faulted : Bool) (r : Readings fl) (m : Motor fl)
      → m.on ≡ calibrating bemf
      → Move (calibrating bemf) (velocity_if b faulted r m).0.on
  unfolding velocity_if stop
  bemf_if-Move false faulted r m x = halt
  bemf_if-Move true true r m x = halt
  bemf_if-Move true false r m x = bemf-Move _ _ r _ x

  cogging-Move :
      (b finished : Bool) (r : Readings fl) (m : Motor fl)
      → m.on ≡ calibrating cogging
      → Move (calibrating cogging) (velocity_as b finished r m).0.on
  unfolding velocity_as finish_velocity stop_finished_session power drive
  cogging-Move false finished r m x = rw x stay
  cogging-Move true false r m x = rw x stay
  cogging-Move true true r m x = rw x (end_calibration cogging)

  cogging_if-Move :
      (b faulted : Bool) (r : Readings fl) (m : Motor fl)
      → m.on ≡ calibrating cogging
      → Move (calibrating cogging) (velocity_if b faulted r m).0.on
  unfolding velocity_if stop
  cogging_if-Move false faulted r m x = halt
  cogging_if-Move true true r m x = halt
  cogging_if-Move true false r m x = cogging-Move _ _ r _ x

  mode_as-Move :
      (b : Bool) (r : Readings fl) (m : Motor fl)
      → record m.on { powered = true; output_enabled = true } ≡ m.on
      → Move m.on (mode_as b r m).0.on
  unfolding mode_as power drive
  mode_as-Move false r m x = stay
  mode_as-Move true r m x = rw x stay

  mode-Move :
      (b faulted : Bool) (r : Readings fl) (m : Motor fl)
      → record m.on { powered = true; output_enabled = true } ≡ m.on
      → Move m.on (mode_if b faulted r m).0.on
  unfolding mode_if stop set_mode_refs
  mode-Move false faulted r m x = halt
  mode-Move true true r m x = halt
  mode-Move true false r m x = mode_as-Move _ r _ x

  idle_off-Move :
      (b : Bool) (dt_s : fl.F) (r : Readings fl) (m : Motor fl)
      → Move off (idle_step_as b false dt_s r (at off m)).on
  unfolding idle_step_as update_encoder push
  idle_off-Move true dt_s r m = stay
  idle_off-Move false dt_s r m = stay

  idle_ended-Move :
      (b : Bool) (dt_s : fl.F) (r : Readings fl) (m : Motor fl)
      → Move ended (idle_step_as b true dt_s r (at ended m)).on
  unfolding idle_step_as update_encoder push
  idle_ended-Move true dt_s r m = stay
  idle_ended-Move false dt_s r m = end_isr

  step_isr_known :
      {s : Switches} → Known s → (r : Readings fl) (m : Motor fl) → Move s (step_isr r (at s m)).on
  unfolding step_isr control_active step_as idle_step apply_protection sample_slow_telemetry
      drive_session drive_encoder_phase drive_velocity drive_resistance drive_inductance drive_mode
      update_encoder
  step_isr_known is_off r m = idle_off-Move _ _ r (record m { last_control_us = _ })
  step_isr_known is_ended r m = idle_ended-Move _ _ r (record m { last_control_us = _ })
  step_isr_known is_servo r m = protect-Move _ _ r _ (mode-Move _ _ r _ refl)
  step_isr_known is_current r m = protect-Move _ _ r _ (mode-Move _ _ r _ refl)
  step_isr_known is_mit r m = protect-Move _ _ r _ (mode-Move _ _ r _ refl)
  step_isr_known (is_calibrating encoder_phase) r m =
      protect-Move _ _ r _ (encoder_phase-Move _ _ r _ refl)
  step_isr_known (is_calibrating bemf) r m = protect-Move _ _ r _ (bemf_if-Move _ _ r _ refl)
  step_isr_known (is_calibrating cogging) r m = protect-Move _ _ r _ (cogging_if-Move _ _ r _ refl)
  step_isr_known (is_calibrating resistance) r m =
      protect-Move _ _ r _ (resistance-Move _ _ r _ refl)
  step_isr_known (is_calibrating inductance) r m =
      protect-Move _ _ r _ (inductance-Move _ _ r _ refl)

  -- A step of the interrupt is one of the moves.
  pub step_isr-Move : (r : Readings fl) (m : Motor fl) → Known m.on → Move m.on (step_isr r m).on
  step_isr-Move r m k = step_isr_known k r m
