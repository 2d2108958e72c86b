-- ===== src/Motor/Moves.antt =====
-- What the operations of the service can do to its switches: the cases that the invariant of
-- Motor/Runs goes through.
use spcd_actuator.Prelude.{◌≡◌, refl, Bool, true, false}
use spcd_actuator.Floats.{Floats}
use spcd_actuator.Link.Commands.{
  ServoCommand, MitCommand, CalibrationCommand, CalibrationKind, Result,
}
use spcd_actuator.Link.Commands
use spcd_actuator.Motor.Parts.{
  Mode, stopped, calibration, servo, current, mit, Switches, Motor, Readings, stop, prime_foc,
  begin_foc, step_primed, go, start_isr, start_isr_if, drive,
}
use spcd_actuator.Motor.Start.{
  do_start_servo, do_start_current, do_start_mit, stop_and_align, Gate, refuse, retarget, begin,
  gate, finish_mode, start_servo_as, start_current_as, start_mit_as,
}
use spcd_actuator.Motor.Calibrate.{
  finish_resistance, begin_resistance, finish_inductance, begin_inductance, observe_dq,
  finish_begin_velocity, begin_velocity, begin_bemf_if, begin_cogging_if, finish_encoder,
  begin_encoder, begin_session, finish_start, start_session_if, start_session, do_start_calibration,
  start_calibration,
}

-- Nothing is on.
abbrev pub off : Switches
off = record {
  mode = stopped;
  output_enabled = false;
  isr_on = false;
  powered = false;
  modulator_active = false;
  servo_active = false;
  mit_active = false;
  foc_active = false;
  encoder_phase_active = false;
  bemf_active = false;
  resistance_active = false;
  inductance_active = false;
  cogging_active = false;
}

-- A mode is driven, by the current controller and the interrupt.
abbrev pub driving : Mode → Switches
driving mode = record off {
  mode = mode;
  output_enabled = true;
  isr_on = true;
  powered = true;
  foc_active = true;
}

-- The calibration sessions.
pub data Session : Type 0 where
  encoder_phase bemf cogging resistance inductance : Session

-- The switches of a running calibration session.
abbrev pub calibrating : Session → Switches
calibrating encoder_phase = record (driving calibration) { encoder_phase_active = true }
calibrating bemf = record (driving calibration) { bemf_active = true; servo_active = true }
calibrating cogging = record (driving calibration) { cogging_active = true; servo_active = true }
calibrating resistance = record (driving calibration) { resistance_active = true }
calibrating inductance = record (driving calibration) {
  inductance_active = true;
  modulator_active = true;
  foc_active = false;
}

-- The switches after a session has ended by itself: the interrupt goes on.
abbrev pub ended : Switches
ended = record off { isr_on = true }

pub data Move : Switches → Switches → Type 0 where
  stay : {s : Switches} → Move s s
  halt : {s : Switches} → Move s off
  begin_servo : {s : Switches} → Move s (record (driving servo) { servo_active = true })
  begin_current : {s : Switches} → Move s (driving current)
  begin_mit : {s : Switches} → Move s (record (driving mit) { mit_active = true })
  begin_calibration : {s : Switches} (k : Session) → Move s (calibrating k)
  end_calibration : (k : Session) → Move (calibrating k) ended
  end_isr : Move ended off

gate_begin : (i v k : Bool) → gate i v k ≡ begin → i ≡ true
unfolding gate
gate_begin true v k e = refl
gate_begin false v k e = cc

module _ {fl : Floats} where
  start_isr-on :
      (r : Readings fl) (m : Motor fl)
      → r.pwm_init_ok ≡ true
      → (start_isr r m).on ≡ record m.on { isr_on = true }
  unfolding start_isr start_isr_if
  start_isr-on r m h = rw h refl

  -- A mode begins or everything is off again, by the first step of the controller.
  finish_mode-Move :
      {s : Switches} (b : Bool) (mode : Mode) (r : Readings fl) (m : Motor fl)
      → r.pwm_init_ok ≡ true
      → Move s (record m.on { mode = mode; output_enabled = true; powered = true; isr_on = true })
      → Move s (record m.on { servo_active = false; mit_active = false; foc_active = false })
      → Move s (finish_mode mode r (step_primed b r m)).0.on
  unfolding finish_mode step_primed go drive
  finish_mode-Move true mode r m h x y = rw (start_isr-on r _ h) x
  finish_mode-Move false mode r m h x y = y

  start_servo_as-Move :
      (g : Gate) (c : ServoCommand fl) (r : Readings fl) (m : Motor fl)
      → (g ≡ begin → r.pwm_init_ok ≡ true)
      → Move m.on (start_servo_as g c r m).0.on
  unfolding start_servo_as prime_foc begin_foc stop_and_align stop
  start_servo_as-Move (refuse why) c r m h = stay
  start_servo_as-Move retarget c r m h = stay
  start_servo_as-Move begin c r m h = finish_mode-Move r.foc_ok servo r _ (h refl) begin_servo halt

  pub do_start_servo-Move :
      (c : ServoCommand fl) (r : Readings fl) (m : Motor fl) → Move m.on (do_start_servo c r m).0.on
  unfolding do_start_servo
  do_start_servo-Move c r m = start_servo_as-Move _ c r m (gate_begin _ _ _)

  start_current_as-Move :
      (g : Gate) (id_A iq_A : fl.F) (r : Readings fl) (m : Motor fl)
      → (g ≡ begin → r.pwm_init_ok ≡ true)
      → Move m.on (start_current_as g id_A iq_A r m).0.on
  unfolding start_current_as prime_foc begin_foc stop_and_align stop
  start_current_as-Move (refuse why) id_A iq_A r m h = stay
  start_current_as-Move retarget id_A iq_A r m h = stay
  start_current_as-Move begin id_A iq_A r m h =
      finish_mode-Move r.foc_ok current r _ (h refl) begin_current halt

  pub do_start_current-Move :
      (id_A iq_A : fl.F) (r : Readings fl) (m : Motor fl)
      → Move m.on (do_start_current id_A iq_A r m).0.on
  unfolding do_start_current
  do_start_current-Move id_A iq_A r m = start_current_as-Move _ id_A iq_A r m (gate_begin _ _ _)

  start_mit_as-Move :
      (g : Gate) (c : MitCommand fl) (r : Readings fl) (m : Motor fl)
      → (g ≡ begin → r.pwm_init_ok ≡ true)
      → Move m.on (start_mit_as g c r m).0.on
  unfolding start_mit_as prime_foc begin_foc stop_and_align stop
  start_mit_as-Move (refuse why) c r m h = stay
  start_mit_as-Move retarget c r m h = stay
  start_mit_as-Move begin c r m h = finish_mode-Move r.foc_ok mit r _ (h refl) begin_mit halt

  pub do_start_mit-Move :
      (c : MitCommand fl) (r : Readings fl) (m : Motor fl) → Move m.on (do_start_mit c r m).0.on
  unfolding do_start_mit
  do_start_mit-Move c r m = start_mit_as-Move _ c r m (gate_begin _ _ _)

  pub stop-Move : (m : Motor fl) → Move m.on (stop m).on
  unfolding stop
  stop-Move m = halt

  -- What a session's start leaves on before it is finished, once everything is off.
  started-Move :
      {s : Switches} (k : Session) (r : Readings fl) (m : Motor fl)
      → r.pwm_init_ok ≡ true
      → record m.on { mode = calibration; output_enabled = true; powered = true; isr_on = true }
        ≡ calibrating k
      → Move s (finish_start r (m, true)).0.on
  unfolding finish_start go
  started-Move k r m h x = rw (start_isr-on r _ h) (rw x (begin_calibration k))

  failed-Move :
      {s : Switches} (r : Readings fl) (m : Motor fl)
      → m.on ≡ off
      → Move s (finish_start r (m, false)).0.on
  unfolding finish_start
  failed-Move r m x = rw x halt

  resistance-Move :
      {s : Switches} (b : Bool) (r : Readings fl) (m : Motor fl)
      → r.pwm_init_ok ≡ true
      → m.on ≡ record off { resistance_active = true; foc_active = true }
      → Move s (finish_start r (finish_resistance (step_primed b r m))).0.on
  unfolding finish_resistance step_primed drive
  resistance-Move true r m h x = started-Move resistance r _ h (rw x refl)
  resistance-Move false r m h x = failed-Move r _ (rw x refl)

  inductance-Move :
      {s : Switches} (b : Bool) (r : Readings fl) (m : Motor fl)
      → r.pwm_init_ok ≡ true
      → m.on ≡ record off { inductance_active = true; modulator_active = true }
      → Move s (finish_start r (finish_inductance b r m)).0.on
  unfolding finish_inductance observe_dq
  inductance-Move true r m h x = started-Move inductance r _ h (rw x refl)
  inductance-Move false r m h x = failed-Move r _ (rw x refl)

  encoder-Move :
      {s : Switches} (b : Bool) (r : Readings fl) (m : Motor fl)
      → r.pwm_init_ok ≡ true
      → m.on ≡ record off { encoder_phase_active = true; foc_active = true }
      → Move s (finish_start r (finish_encoder b r m)).0.on
  unfolding finish_encoder drive
  encoder-Move true r m h x = started-Move encoder_phase r _ h (rw x refl)
  encoder-Move false r m h x = failed-Move r _ (rw x refl)

  bemf-Move :
      {s : Switches} (b : Bool) (r : Readings fl) (m : Motor fl)
      → r.pwm_init_ok ≡ true
      → m.on ≡ record off { bemf_active = true; servo_active = true; foc_active = true }
      → Move s (finish_start r (finish_begin_velocity (step_primed b r m))).0.on
  unfolding finish_begin_velocity step_primed drive
  bemf-Move true r m h x = started-Move bemf r _ h (rw x refl)
  bemf-Move false r m h x = failed-Move r _ (rw x refl)

  cogging-Move :
      {s : Switches} (b : Bool) (r : Readings fl) (m : Motor fl)
      → r.pwm_init_ok ≡ true
      → m.on ≡ record off { cogging_active = true; servo_active = true; foc_active = true }
      → Move s (finish_start r (finish_begin_velocity (step_primed b r m))).0.on
  unfolding finish_begin_velocity step_primed drive
  cogging-Move true r m h x = started-Move cogging r _ h (rw x refl)
  cogging-Move false r m h x = failed-Move r _ (rw x refl)

  bemf_if-Move :
      {s : Switches} (b : Bool) (c : CalibrationCommand fl) (r : Readings fl) (m : Motor fl)
      → r.pwm_init_ok ≡ true
      → m.on ≡ off
      → Move s (finish_start r (begin_bemf_if b c r m)).0.on
  unfolding begin_bemf_if begin_velocity prime_foc begin_foc
  bemf_if-Move true c r m h x = bemf-Move r.foc_ok r _ h (rw x refl)
  bemf_if-Move false c r m h x = failed-Move r _ x

  cogging_if-Move :
      {s : Switches} (b : Bool) (c : CalibrationCommand fl) (r : Readings fl) (m : Motor fl)
      → r.pwm_init_ok ≡ true
      → m.on ≡ off
      → Move s (finish_start r (begin_cogging_if b c r m)).0.on
  unfolding begin_cogging_if begin_velocity prime_foc begin_foc
  cogging_if-Move true c r m h x = cogging-Move r.foc_ok r _ h (rw x refl)
  cogging_if-Move false c r m h x = failed-Move r _ x

  begin_session-Move :
      {s : Switches} (k : CalibrationKind) (c : CalibrationCommand fl) (r : Readings fl)
      (m : Motor fl)
      → r.pwm_init_ok ≡ true
      → m.on ≡ off
      → Move s (finish_start r (begin_session k c r m)).0.on
  unfolding begin_session begin_resistance begin_inductance begin_encoder prime_foc begin_foc
  begin_session-Move Commands.resistance c r m h x = resistance-Move r.foc_ok r _ h (rw x refl)
  begin_session-Move Commands.inductance c r m h x =
      inductance-Move r.modulator_ok r _ h (rw x refl)
  begin_session-Move Commands.bemf c r m h x = bemf_if-Move r.theta_valid c r m h x
  begin_session-Move Commands.cogging c r m h x = cogging_if-Move r.theta_valid c r m h x
  begin_session-Move Commands.encoder_lock c r m h x = encoder-Move r.foc_ok r _ h (rw x refl)
  begin_session-Move Commands.encoder_phase c r m h x = encoder-Move r.foc_ok r _ h (rw x refl)
  begin_session-Move Commands.abort c r m h x = failed-Move r m x

  start_session_if-Move :
      (i usable : Bool) (k : CalibrationKind) (c : CalibrationCommand fl) (r : Readings fl)
      (m : Motor fl)
      → (i ≡ true → r.pwm_init_ok ≡ true)
      → Move m.on (start_session_if i usable k c r m).0.on
  unfolding start_session_if stop
  start_session_if-Move false usable k c r m h = stay
  start_session_if-Move true false k c r m h = stay
  start_session_if-Move true true k c r m h = begin_session-Move k c r _ (h refl) refl

  do_start_calibration-Move :
      (k : CalibrationKind) (c : CalibrationCommand fl) (r : Readings fl) (m : Motor fl)
      → Move m.on (do_start_calibration k c r m).0.on
  unfolding do_start_calibration start_session
  do_start_calibration-Move Commands.abort c r m = stop-Move m
  do_start_calibration-Move Commands.resistance c r m = start_session_if-Move _ _ _ c r m (λ e. e)
  do_start_calibration-Move Commands.inductance c r m = start_session_if-Move _ _ _ c r m (λ e. e)
  do_start_calibration-Move Commands.bemf c r m = start_session_if-Move _ _ _ c r m (λ e. e)
  do_start_calibration-Move Commands.cogging c r m = start_session_if-Move _ _ _ c r m (λ e. e)
  do_start_calibration-Move Commands.encoder_lock c r m = start_session_if-Move _ _ _ c r m (λ e. e)
  do_start_calibration-Move Commands.encoder_phase c r m =
      start_session_if-Move _ _ _ c r m (λ e. e)

  pub start_calibration-Move :
      (c : CalibrationCommand fl) (r : Readings fl) (m : Motor fl)
      → Move m.on (start_calibration c r m).0.on
  unfolding start_calibration
  start_calibration-Move c r m = do_start_calibration-Move c.kind c r m
