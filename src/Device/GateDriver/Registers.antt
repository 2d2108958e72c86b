-- ===== src/Device/GateDriver/Registers.antt =====
-- The start of the gate driver on a chip that holds its registers.
use spcd_actuator.Prelude.{
  ℕ, ◌+◌, ◌*◌, ◌/◌, ◌%◌, ◌^◌, ◌≤◌, ◌<◌, ◌≡◌, refl, ◌∙◌, ◌≢◌, ◌⊎◌, inl, inr, suc, Bool, true, false,
  if◌then◌else◌, leb, ◌==◌, List, [], ◌∷◌, length, arith,
}
use spcd_actuator.Device.GateDriver.{
  Config, Chip, PwmMode, OcpMode, pwm_6x, pwm_3x, pwm_1x, independent, latched_fault,
  automatic_retry, report_only, disabled, pwm_code, ocp_code, map_choice, bit, driver_control,
  gate_drive_hs, gate_drive_ls, ocp_control, csa_control, registers, read_frame, write_frame,
  read_register, write_register, write_all, verify_all,
}

-- The word stands in the list at the address.
unfoldable pub Listed : ℕ → ℕ → List (ℕ × ℕ) → Type 0
Listed a v [] = ⊥
Listed a v ((b, u) ∷ rs) = ((a ≡ b) × (v ≡ u)) ⊎ Listed a v rs

-- What the start writes for a configuration: its words of the registers, and the word of the
-- amplifiers with the calibration bits set and clear.
pub data IsWritten (g : Config) : ℕ → ℕ → Type 0 where
  of_configuration : (a v : ℕ) → Listed a v (registers g) → IsWritten g a v
  calibrating : IsWritten g 6 (csa_control g + 28)
  calibrated : IsWritten g 6 (csa_control g)

-- The chip keeps what the start writes for the configuration: a write frame of such a word changes the
-- register at its address, a read frame brings it and changes none. It reports no fault. Nothing is
-- asked of other words, for which some bits act instead of being kept.
pub record Holds (h : Chip) (g : Config) : Type 0 where
  pub held : h.C → ℕ → ℕ
  pub write_same :
      (a v : ℕ) (c : h.C) → IsWritten g a v → held (h.exchange (write_frame a v) c).1 a ≡ v
  pub write_other :
      (a b v : ℕ) (c : h.C)
      → a < 8
      → IsWritten g b v
      → a ≢ b
      → held (h.exchange (write_frame b v) c).1 a ≡ held c a
  pub read_word : (a : ℕ) (c : h.C) → a < 8 → (h.exchange (read_frame a) c).0 % 2048 ≡ held c a
  pub read_same :
      (a b : ℕ) (c : h.C) → a < 8 → b < 8 → held (h.exchange (read_frame b) c).1 a ≡ held c a
  pub calm : (c : h.C) → held c 0 / 1024 % 2 ≡ 0
  pub quiet : (c : h.C) → h.fault_low c ≡ false

-- All words of the list are written by the start.
unfoldable pub AllWritten : Config → List (ℕ × ℕ) → Type 0
AllWritten g [] = Unit
AllWritten g ((a, v) ∷ rs) = IsWritten g a v × AllWritten g rs

-- Addresses above the given one, and values of eleven bits.
unfoldable pub IsAscending : ℕ → List (ℕ × ℕ) → Type 0
IsAscending low [] = Unit
IsAscending low ((a, v) ∷ rs) = (low < a) × (a < 8) × (v < 2048) × IsAscending a rs

map_choice-lt : (t : ℕ) (ts : List ℕ) (v : ℕ) → map_choice (t ∷ ts) v < length (t ∷ ts)
unfolding map_choice
map_choice-lt t [] v = omega arith
map_choice-lt t (u ∷ ts) v = choose _ _ (leb v t) (map_choice-lt u ts v)
  where
    choose : (n m : ℕ) (b : Bool) → n < m → (if b then 0 else n + 1) < suc m
    choose n m b h = ground arith

bit-cases : (b : Bool) (p : ℕ) → (bit b p ≡ 0) ⊎ (bit b p ≡ 2 ^ p)
bit-cases true p = inr refl
bit-cases false p = inl refl

pwm_code-lt : (m : PwmMode) → pwm_code m < 4
pwm_code-lt pwm_6x = omega arith
pwm_code-lt pwm_3x = omega arith
pwm_code-lt pwm_1x = omega arith
pwm_code-lt independent = omega arith

ocp_code-lt : (m : OcpMode) → ocp_code m < 4
ocp_code-lt latched_fault = omega arith
ocp_code-lt automatic_retry = omega arith
ocp_code-lt report_only = omega arith
ocp_code-lt disabled = omega arith

driver_control-lt : (g : Config) → driver_control g < 2048
unfolding driver_control
driver_control-lt g = omega (
  arith,
  pwm_code-lt g.pwm_mode,
  bit-cases g.disable_charge_pump_uvlo 9,
  bit-cases g.disable_gate_drive_fault 8,
  bit-cases g.report_overtemperature_warning 7,
  bit-cases g.pwm_1x_asynchronous 4,
  bit-cases g.pwm_1x_direction 3,
)

gate_drive_hs-lt : (g : Config) → gate_drive_hs g < 2048
unfolding gate_drive_hs
gate_drive_hs-lt g =
    omega
      (arith, map_choice-lt 50 _ g.source_current_hs_ma, map_choice-lt 100 _ g.sink_current_hs_ma)

gate_drive_ls-lt : (g : Config) → gate_drive_ls g < 2048
unfolding gate_drive_ls
gate_drive_ls-lt g = omega (
  arith,
  bit-cases g.cycle_by_cycle 10,
  map_choice-lt 500 _ g.peak_drive_time_ns,
  map_choice-lt 50 _ g.source_current_ls_ma,
  map_choice-lt 100 _ g.sink_current_ls_ma,
)

ocp_control-lt : (g : Config) → ocp_control g < 2048
unfolding ocp_control
ocp_control-lt g = omega (
  arith,
  bit-cases g.retry_time_50us 10,
  map_choice-lt 50 _ g.dead_time_ns,
  ocp_code-lt g.ocp_mode,
  map_choice-lt 1 _ g.ocp_deglitch_us,
  map_choice-lt 60 _ g.vds_threshold_mv,
)

-- The calibration bits are no field of the amplifiers' register.
pub csa_control-lt : (g : Config) → (csa_control g < 2048) × (csa_control g / 4 % 8 * 4 ≡ 0)
unfolding csa_control
csa_control-lt g =
    csa_fields _ _ _ _ _ _ (bit-cases g.csa_fet 10) (bit-cases g.vref_divide_by_2 9)
      (bit-cases g.low_side_reference 8) (map_choice-lt 5 _ g.csa_gain)
      (bit-cases g.disable_sense_ocp 5) (map_choice-lt 250 _ g.sense_threshold_mv)
  where
    csa_fields :
        (f v l n d s : ℕ)
        → (f ≡ 0) ⊎ (f ≡ 1024)
        → (v ≡ 0) ⊎ (v ≡ 512)
        → (l ≡ 0) ⊎ (l ≡ 256)
        → n < 4
        → (d ≡ 0) ⊎ (d ≡ 32)
        → s < 4
        → (f + v + l + n * 64 + d + s < 2048) × ((f + v + l + n * 64 + d + s) / 4 % 8 * 4 ≡ 0)
    csa_fields f v l n d s hf hv hl hn hd hs = (omega arith, omega arith)

pub registers-IsAscending : (g : Config) → IsAscending 1 (registers g)
unfolding IsAscending registers
registers-IsAscending g = (
  omega arith,
  omega arith,
  driver_control-lt g,
  (
    omega arith,
    omega arith,
    gate_drive_hs-lt g,
    (
      omega arith,
      omega arith,
      gate_drive_ls-lt g,
      (
        omega arith,
        omega arith,
        ocp_control-lt g,
        (
          omega arith,
          omega arith,
          (csa_control-lt g).0,
          (omega arith, omega arith, omega arith, tt),
        ),
      ),
    ),
  ),
)

Listed-AllWritten :
    (g : Config) (rs : List (ℕ × ℕ))
    → ((a v : ℕ) → Listed a v rs → Listed a v (registers g))
    → AllWritten g rs
unfolding AllWritten Listed
Listed-AllWritten g [] f = tt
Listed-AllWritten g ((b, u) ∷ rs) f = (
  of_configuration b u (f b u (inl (refl, refl))),
  Listed-AllWritten g rs (λ a v l. f a v (inr l)),
)

pub registers-AllWritten : (g : Config) → AllWritten g (registers g)
registers-AllWritten g = Listed-AllWritten g (registers g) (λ a v l. l)

IsAscending-Listed :
    (low a v : ℕ) (rs : List (ℕ × ℕ))
    → IsAscending low rs
    → Listed a v rs
    → (low < a) × (a < 8) × (v < 2048)
unfolding IsAscending Listed
IsAscending-Listed low a v [] s l = absurd l
IsAscending-Listed low a v ((b, u) ∷ rs) (up, top, small, s) (inl (e, f)) =
    (omega arith, omega arith, omega arith)
IsAscending-Listed low a v ((b, u) ∷ rs) (up, top, small, s) (inr l) =
    let t = IsAscending-Listed b a v rs s l in (omega arith, t.1, t.2)

-- What is written is a word of eleven bits at an address from 2 to 7.
pub IsWritten-small : (g : Config) (a v : ℕ) → IsWritten g a v → (1 < a) × (a < 8) × (v < 2048)
IsWritten-small g a v (of_configuration b u l) =
    IsAscending-Listed 1 a v (registers g) (registers-IsAscending g) l
IsWritten-small g a v calibrating =
    (omega arith, omega arith, omega (arith, (csa_control-lt g).0, (csa_control-lt g).1))
IsWritten-small g a v calibrated = (omega arith, omega arith, (csa_control-lt g).0)

absurd_lt : (a b low : ℕ) → a ≡ b → a ≤ low → low < b → ⊥
absurd_lt a b low e l up = omega arith

none_failed :
    (word v n failures : ℕ) → word ≡ v → failures ≡ 0 → (if word == v then 0 else n) + failures ≡ 0
none_failed word v n failures e f = ground arith

module _ (h : Chip) (g : Config) (k : Holds h g) where
  -- The chip holds every register of the list.
  unfoldable pub AllHeld : h.C → List (ℕ × ℕ) → Type 0
  AllHeld c [] = Unit
  AllHeld c ((a, v) ∷ rs) = (k.held c a ≡ v) × AllHeld c rs

  write_all-below :
      (low a : ℕ) (rs : List (ℕ × ℕ)) (c : h.C)
      → a ≤ low
      → a < 8
      → IsAscending low rs
      → AllWritten g rs
      → k.held (write_all h rs c) a ≡ k.held c a
  unfolding write_all write_register IsAscending AllWritten
  write_all-below low a [] c l e s w = refl
  write_all-below low a ((b, v) ∷ rs) c l e (up, top, _, s) (w, ws) =
      write_all-below b a rs _ (omega arith) e s ws
      ∙ k.write_other a b v c e w (λ same. absurd_lt a b low same l up)

  pub write_all-AllHeld :
      (low : ℕ) (rs : List (ℕ × ℕ)) (c : h.C)
      → 1 ≤ low
      → IsAscending low rs
      → AllWritten g rs
      → AllHeld (write_all h rs c) rs
  unfolding write_all write_register AllHeld IsAscending AllWritten
  write_all-AllHeld low [] c l s w = tt
  write_all-AllHeld low ((a, v) ∷ rs) c l (up, top, _, s) (w, ws) = (
    write_all-below a a rs _ (omega arith) top s ws ∙ k.write_same a v c w,
    write_all-AllHeld a rs _ (omega arith) s ws,
  )

  -- Reading changes no register.
  pub verify_all-held :
      (low a : ℕ) (rs : List (ℕ × ℕ)) (c : h.C)
      → a < 8
      → IsAscending low rs
      → k.held (verify_all h rs c).1 a ≡ k.held c a
  unfolding verify_all read_register IsAscending
  verify_all-held low a [] c e s = refl
  verify_all-held low a ((b, v) ∷ rs) c e (up, top, _, s) =
      verify_all-held b a rs _ e s ∙ k.read_same a b c e top

  read-AllHeld :
      (low b : ℕ) (rs : List (ℕ × ℕ)) (c : h.C)
      → b < 8
      → IsAscending low rs
      → AllHeld c rs
      → AllHeld (h.exchange (read_frame b) c).1 rs
  unfolding AllHeld IsAscending
  read-AllHeld low b [] c e s t = tt
  read-AllHeld low b ((a, v) ∷ rs) c e (up, top, _, s) (t, ts) =
      (k.read_same a b c top e ∙ t, read-AllHeld a b rs c e s ts)

  pub verify_all-none :
      (low : ℕ) (rs : List (ℕ × ℕ)) (c : h.C)
      → IsAscending low rs
      → AllHeld c rs
      → (verify_all h rs c).0 ≡ 0
  unfolding verify_all read_register AllHeld IsAscending
  verify_all-none low [] c s t = refl
  verify_all-none low ((a, v) ∷ rs) c (up, top, _, s) (t, ts) =
      none_failed _ v (2 ^ a) _ (k.read_word a c top ∙ t)
        (verify_all-none a rs _ s (read-AllHeld a a rs c top s ts))
