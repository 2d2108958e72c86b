-- ===== src/Device/GateDriver/Success.antt =====
-- The start of the gate driver succeeds on a chip that holds its registers and reports no fault.
use spcd_actuator.Prelude.{
  ℕ, ◌-◌, ◌*◌, ◌/◌, ◌%◌, ◌≡◌, refl, sym, ap, ◌∙◌, Bool, true, false, ◌||◌, ◌==◌, arith,
}
use mathlib.Core.Path.{subst}
use spcd_actuator.Device.GateDriver.Registers
use spcd_actuator.Device.GateDriver.{
  read_frame, Config, Chip, Driver, csa_control, registers, read_register, write_register,
  write_all, configure, calibrate_current_sense, read_fault, check_status, check_calibration,
  check_configuration, init,
}
use spcd_actuator.Device.GateDriver.Registers.{
  Holds, IsWritten, registers-IsAscending, registers-AllWritten, csa_control-lt, write_all-AllHeld,
  verify_all-held, verify_all-none, AllHeld,
}

is_zero : (n : ℕ) → n ≡ 0 → (n == 0) ≡ true
is_zero n e = ground arith

no_fault : (n : ℕ) (b : Bool) → n ≡ 0 → b ≡ false → (n == 1 || b) ≡ false
no_fault n b e f = ground arith

-- The word of the amplifiers with its calibration bits cleared.
abbrev cleared_of : ℕ → ℕ
cleared_of word = word % 2048 - word % 2048 / 4 % 8 * 4

-- The bits that are clear need no clearing.
clear_again : (word v : ℕ) → word % 2048 ≡ v → v / 4 % 8 * 4 ≡ 0 → cleared_of word ≡ v
clear_again word v e z = omega arith

module _ (h : Chip) (g : Config) (k : Holds h g) where
  configured : (c : h.C) → AllHeld h g k (write_all h (registers g) c) (registers g)
  configured c =
      write_all-AllHeld h g k 1 (registers g) c (omega arith) (registers-IsAscending g)
        (registers-AllWritten g)

  configure_none : (c : h.C) → (configure h g c).0 ≡ 0
  unfolding configure
  configure_none c =
      verify_all-none h g k 1 (registers g) _ (registers-IsAscending g) (configured c)

  sixth : (c : h.C) → AllHeld h g k c (registers g) → k.held c 6 ≡ csa_control g
  unfolding AllHeld registers
  sixth c t = t.1.1.1.1.0

  configure-held : (c : h.C) → k.held (configure h g c).1 6 ≡ csa_control g
  unfolding configure
  configure-held c =
      verify_all-held h g k 1 6 (registers g) _ (omega arith) (registers-IsAscending g)
      ∙ sixth _ (configured c)

  calibrated_word :
      (c : h.C)
      → k.held c 6 ≡ csa_control g
      → IsWritten g 6 (cleared_of (h.exchange (read_frame 6) c).0)
  calibrated_word c e =
      subst (IsWritten g 6)
        (sym (clear_again _ _ (k.read_word 6 c (omega arith) ∙ e) (csa_control-lt g).1))
        Registers.calibrated

  calibrated : (c : h.C) → k.held c 6 ≡ csa_control g → (calibrate_current_sense h c).0 ≡ true
  unfolding calibrate_current_sense read_register write_register
  calibrated c e = is_zero _ (
      ap (λ w. w / 4 % 8 * 4)
        (k.read_word 6 _ (omega arith)
          ∙ (k.write_same 6 _ _ (calibrated_word c e)
              ∙ clear_again _ _ (k.read_word 6 c (omega arith) ∙ e) (csa_control-lt g).1))
      ∙ (csa_control-lt g).1)

  read_fault_lem : (c : h.C) → (read_fault h c).0 ≡ false
  unfolding read_fault read_register
  read_fault_lem c =
      no_fault _ _ (ap (λ w. w / 1024 % 2) (k.read_word 0 c (omega arith)) ∙ k.calm c) (k.quiet _)

  status_passes : (b : Bool) (d : Driver h) → b ≡ false → (check_status h b d).1 ≡ true
  unfolding check_status
  status_passes true d e = sym e
  status_passes false d e = refl

  calibration_passes : (b : Bool) (d : Driver h) → b ≡ true → (check_calibration h b d).1 ≡ true
  unfolding check_calibration
  calibration_passes true d e = status_passes _ _ (read_fault_lem d.chip)
  calibration_passes false d e = e

  configuration_passes :
      (b : Bool) (d : Driver h)
      → b ≡ true
      → (calibrate_current_sense h d.chip).0 ≡ true
      → (check_configuration h b d).1 ≡ true
  unfolding check_configuration
  configuration_passes true d e t = calibration_passes _ _ t
  configuration_passes false d e t = e

  -- On a chip that keeps the words that the start writes for the configuration, brings them at a read
  -- and reports no fault, `Init` returns true: every register reads back, and the calibration bits are
  -- clear again.
  pub init_succeeds : (d : Driver h) → (init h g d).1 ≡ true
  unfolding init
  init_succeeds d =
      configuration_passes _ _ (is_zero _ (configure_none _)) (calibrated _ (configure-held _))
