-- ===== src/Motor/Runs.antt =====
-- Whole runs of the service: any operations in any order, the interrupt's steps between them, from
-- the state after the start of the firmware.
use spcd_actuator.Prelude.{ℕ, ◌≡◌, refl, Bool, true, false, List, [], ◌∷◌, ◌+◌, if◌then◌else◌}
use spcd_actuator.Floats.{Floats}
use spcd_actuator.Link.Commands.{ServoCommand, MitCommand, CalibrationCommand}
use spcd_actuator.Motor.Parts.{Mode, calibration, Switches, Motor, Readings, stop}
use spcd_actuator.Motor.Start.{do_start_servo, do_start_current, do_start_mit}
use spcd_actuator.Motor.Calibrate.{start_calibration}
use spcd_actuator.Motor.Isr.{step_isr, control_active}
use spcd_actuator.Motor.Moves.{
  encoder_phase, bemf, cogging, resistance, inductance, Move, stay, halt, begin_servo,
  begin_current, begin_mit, begin_calibration, end_calibration, end_isr, do_start_servo-Move,
  do_start_current-Move, do_start_mit-Move, start_calibration-Move, stop-Move,
}
use spcd_actuator.Motor.IsrMoves.{
  Known, is_off, is_ended, is_servo, is_current, is_mit, is_calibrating, step_isr-Move,
}

-- The operations of `MotorControlService` that change it.
pub data Operation (fl : Floats) : Type 0 where
  start_servo : ServoCommand fl → Operation fl
  start_current : fl.F → fl.F → Operation fl
  start_mit : MitCommand fl → Operation fl
  start_session : CalibrationCommand fl → Operation fl
  stop_all interrupt : Operation fl

unfoldable pub operate : {fl : Floats} → Operation fl → Readings fl → Motor fl → Motor fl
operate (start_servo c) r m = (do_start_servo c r m).0
operate (start_current id_A iq_A) r m = (do_start_current id_A iq_A r m).0
operate (start_mit c) r m = (do_start_mit c r m).0
operate (start_session c) r m = (start_calibration c r m).0
operate stop_all r m = stop m
operate interrupt r m = step_isr r m

-- A run, each operation with what the parts answer during it.
unfoldable pub run : {fl : Floats} → List (Operation fl × Readings fl) → Motor fl → Motor fl
run [] m = m
run ((o, r) ∷ os) m = run os (operate o r m)

pub Move-Known : {s t : Switches} → Move s t → Known s → Known t
Move-Known stay k = k
Move-Known halt k = is_off
Move-Known begin_servo k = is_servo
Move-Known begin_current k = is_current
Move-Known begin_mit k = is_mit
Move-Known (begin_calibration c) k = is_calibrating c
Move-Known (end_calibration c) k = is_ended
Move-Known end_isr k = is_off

-- The number of calibration sessions that run, and of controllers of the current.
unfoldable pub count : List Bool → ℕ
count [] = 0
count (b ∷ bs) = let others = count bs in if b then 1 + others else others

unfoldable pub sessions : Switches → ℕ
sessions s = count (
    s.encoder_phase_active ∷ s.bemf_active ∷ s.resistance_active ∷ s.inductance_active
    ∷ s.cogging_active ∷ [])

abbrev is_calibration : Mode → Bool
is_calibration calibration = true
is_calibration _ = false

-- What the switches must keep: the power, the output flag and the control of the interrupt go
-- together, with the interrupt on and one controller of the current; at most one session runs, and
-- one runs in the calibration mode only.
pub record Consistent (s : Switches) : Type 0 where
  pub power : s.powered ≡ control_active s
  pub output : s.output_enabled ≡ s.powered
  pub isr : s.powered ≡ true → s.isr_on ≡ true
  pub controllers : count (s.foc_active ∷ s.modulator_active ∷ []) ≡ count (s.powered ∷ [])
  pub one_session : sessions s ≡ (if is_calibration s.mode then 1 else 0)

pub Known-Consistent : {s : Switches} → Known s → Consistent s
unfolding control_active count sessions
Known-Consistent is_off = record {
  power = refl;
  output = refl;
  isr = cc;
  controllers = refl;
  one_session = refl;
}
Known-Consistent is_ended = record {
  power = refl;
  output = refl;
  isr = cc;
  controllers = refl;
  one_session = refl;
}
Known-Consistent is_servo = record {
  power = refl;
  output = refl;
  isr = λ e. refl;
  controllers = refl;
  one_session = refl;
}
Known-Consistent is_current = record {
  power = refl;
  output = refl;
  isr = λ e. refl;
  controllers = refl;
  one_session = refl;
}
Known-Consistent is_mit = record {
  power = refl;
  output = refl;
  isr = λ e. refl;
  controllers = refl;
  one_session = refl;
}
Known-Consistent (is_calibrating encoder_phase) = record {
  power = refl;
  output = refl;
  isr = λ e. refl;
  controllers = refl;
  one_session = refl;
}
Known-Consistent (is_calibrating bemf) = record {
  power = refl;
  output = refl;
  isr = λ e. refl;
  controllers = refl;
  one_session = refl;
}
Known-Consistent (is_calibrating cogging) = record {
  power = refl;
  output = refl;
  isr = λ e. refl;
  controllers = refl;
  one_session = refl;
}
Known-Consistent (is_calibrating resistance) = record {
  power = refl;
  output = refl;
  isr = λ e. refl;
  controllers = refl;
  one_session = refl;
}
Known-Consistent (is_calibrating inductance) = record {
  power = refl;
  output = refl;
  isr = λ e. refl;
  controllers = refl;
  one_session = refl;
}

module _ {fl : Floats} where
  pub operate-Move :
      (o : Operation fl) (r : Readings fl) (m : Motor fl)
      → Known m.on
      → Move m.on (operate o r m).on
  unfolding operate
  operate-Move (start_servo c) r m k = do_start_servo-Move c r m
  operate-Move (start_current id_A iq_A) r m k = do_start_current-Move id_A iq_A r m
  operate-Move (start_mit c) r m k = do_start_mit-Move c r m
  operate-Move (start_session c) r m k = start_calibration-Move c r m
  operate-Move stop_all r m k = stop-Move m
  operate-Move interrupt r m k = step_isr-Move r m k

  pub run-Known :
      (os : List (Operation fl × Readings fl)) (m : Motor fl) → Known m.on → Known (run os m).on
  unfolding run
  run-Known [] m k = k
  run-Known ((o, r) ∷ os) m k = run-Known os (operate o r m) (Move-Known (operate-Move o r m k) k)

  -- After every run from switches that the service can have, the power, the output flag and the
  -- control of the interrupt are on together or off together, with the interrupt on where there is
  -- power; then exactly one of the two controllers of the current is active, and neither without
  -- power; and one calibration session runs in the calibration mode, none in another mode.
  pub run-Consistent :
      (os : List (Operation fl × Readings fl)) (m : Motor fl)
      → Known m.on
      → Consistent (run os m).on
  run-Consistent os m k = Known-Consistent (run-Known os m k)
