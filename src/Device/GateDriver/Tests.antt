-- ===== src/Device/GateDriver/Tests.antt =====
-- The gate driver with the board's settings, on a chip of eight registers.
use spcd_actuator.Prelude.{
  ℕ, ◌+◌, ◌*◌, ◌/◌, ◌%◌, ◌≤◌, ◌<◌, ◌≡◌, ◌≢◌, refl, ◌∙◌, true, false, if◌then◌else◌, ltb, ◌==◌,
  arith,
}
use native.Mathlib.Nat.{mod-eq_of_lt}
use spcd_actuator.Device.GateDriver.{Config, Chip, Driver, pwm_3x, latched_fault, init}
use spcd_actuator.Device.GateDriver.Registers.{Holds, IsWritten-small}
use spcd_actuator.Device.GateDriver.Start.{IsSafe, init-IsSafe}
use spcd_actuator.Device.GateDriver.Success.{init_succeeds}

abbrev held : (ℕ → ℕ) → ℕ → ℕ
held c a = if ltb a 2 then 0 else c a % 2048

-- What a frame writes, and the word that it brings.
abbrev put : ℕ → (ℕ → ℕ) → ℕ → ℕ
put frame c a =
    if ltb frame 32768 then (if a == frame / 2048 % 16 then frame % 2048 else c a) else c a

abbrev registers : Chip
registers = record {
  C = ℕ → ℕ;
  exchange = λ frame c. (held c (frame / 2048 % 16), put frame c);
  set_enable = λ b c. c;
  fault_low = λ c. false;
}

written_address : (a v : ℕ) → a < 8 → (a % 16 * 2048 + v % 2048) / 2048 % 16 ≡ a
written_address a v h = omega arith

written_word : (a v : ℕ) → a < 8 → (a % 16 * 2048 + v % 2048) % 2048 % 2048 ≡ v % 2048
written_word a v h = omega arith

is_write : (a v : ℕ) → a < 8 → ltb (a % 16 * 2048 + v % 2048) 32768 ≡ true
is_write a v h = ground arith

read_address : (a : ℕ) → a < 8 → (32768 + a % 16 * 2048) / 2048 % 16 ≡ a
read_address a h = omega arith

is_read : (a : ℕ) → ltb (32768 + a % 16 * 2048) 32768 ≡ false
is_read a = ground arith

same_address : (a : ℕ) → (a == a) ≡ true
same_address a = ground arith

other_address : (a b : ℕ) → a ≢ b → (a == b) ≡ false
other_address a b h = ground arith

not_status : (a : ℕ) → 2 ≤ a → ltb a 2 ≡ false
not_status a h = ground arith

held-small : (c : ℕ → ℕ) (a : ℕ) → held c a % 2048 ≡ held c a
held-small c a = ground arith

abbrev settings : Config
settings = record {
  disable_charge_pump_uvlo = false;
  disable_gate_drive_fault = false;
  report_overtemperature_warning = false;
  pwm_mode = pwm_3x;
  pwm_1x_asynchronous = false;
  pwm_1x_direction = false;
  source_current_hs_ma = 100;
  sink_current_hs_ma = 200;
  source_current_ls_ma = 850;
  sink_current_ls_ma = 1200;
  cycle_by_cycle = true;
  peak_drive_time_ns = 1000;
  retry_time_50us = false;
  dead_time_ns = 50;
  ocp_mode = latched_fault;
  ocp_deglitch_us = 4;
  vds_threshold_mv = 700;
  csa_fet = false;
  vref_divide_by_2 = true;
  low_side_reference = false;
  csa_gain = 20;
  disable_sense_ocp = false;
  sense_threshold_mv = 500;
}

laws : Holds registers settings
laws = record {
  held = held;
  write_same = λ a v c w.
      let (two, h, small) = IsWritten-small settings a v w in
      rw (not_status a two) (
        rw (is_write a v h) (
          rw (written_address a v h)
            (rw (same_address a) (written_word a v h ∙ mod-eq_of_lt small))));
  write_other = λ a b v c ha w n.
      let (two, hb, small) = IsWritten-small settings b v w in
      rw (is_write b v hb) (rw (written_address b v hb) (rw (other_address a b n) refl));
  read_word = λ a c h. rw (read_address a h) (held-small c a);
  read_same = λ a b c ha hb. rw (is_read b) refl;
  calm = λ c. refl;
  quiet = λ c. refl;
}

abbrev driver : Driver registers
driver = record {
  chip = λ a. 0;
  enable_pin = false;
  hiz_pin = true;
  enabled = false;
  power_on = true;
  init_ok = false;
}

init_succeeds_example : (init registers settings driver).1 ≡ true
init_succeeds_example = init_succeeds registers settings laws driver

init-IsSafe_example : IsSafe registers (init registers settings driver)
init-IsSafe_example = init-IsSafe registers settings driver
