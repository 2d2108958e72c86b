-- ===== src/Can/Dlc.antt =====
-- Length codes of CAN-FD frames: `RoundUpDlc` of fw/bootloader/src/BL_CanDriver.cc.
use spcd_actuator.Prelude.{
  refl, ℕ, ◌+◌, ◌≤◌, ◌≡◌, Bool, true, false, not, ◌↔◌, passes_below, passes_below_at, List, [], ◌∷◌,
  if◌then◌else◌, leb, arith, get_or,
}

-- `kDlcToSize`
abbrev pub dlc_to_size : List ℕ
dlc_to_size = 0 ∷ 1 ∷ 2 ∷ 3 ∷ 4 ∷ 5 ∷ 6 ∷ 7 ∷ 8 ∷ 12 ∷ 16 ∷ 20 ∷ 24 ∷ 32 ∷ 48 ∷ 64 ∷ []

-- The loop of the bootloader's `RoundUpDlc`, over the entries from an index on. Past the last entry
-- the source reads out of the table; the value here is the one of its unreachable last line.
unfoldable pub round_up_from : List ℕ → ℕ → ℕ → ℕ
round_up_from [] dlc size = 15
round_up_from (s ∷ ss) dlc size =
    let rest = round_up_from ss (dlc + 1) size in if leb size s then dlc else rest

unfoldable pub round_up_dlc : ℕ → ℕ
round_up_dlc size = round_up_from dlc_to_size 0 size

-- Do the two Booleans agree?
abbrev same : Bool → Bool → Bool
same true b = b
same false b = not b

-- Does the code hold the size exactly where it is not below the computed code?
agrees : ℕ → ℕ → Bool
agrees size dlc = same (leb size (get_or dlc_to_size dlc 0)) (leb (round_up_dlc size) dlc)

agrees_table : passes_below (λ size. passes_below (agrees size) 16) 65 ≡ true
unfolding passes_below agrees round_up_dlc round_up_from
agrees_table = refl

same_sound : (a b x y : ℕ) → same (leb a b) (leb x y) ≡ true → (a ≤ b) ↔ (x ≤ y)
same_sound a b x y h = ground arith

agrees_sound :
    (size dlc : ℕ)
    → agrees size dlc ≡ true
    → (size ≤ get_or dlc_to_size dlc 0) ↔ (round_up_dlc size ≤ dlc)
unfolding agrees
agrees_sound size dlc h = same_sound size (get_or dlc_to_size dlc 0) (round_up_dlc size) dlc h

-- The code computed for a frame of at most 64 bytes is the least one whose length holds the frame.
pub round_up_dlc_least :
    (size dlc : ℕ)
    → size ≤ 64
    → dlc ≤ 15
    → (size ≤ get_or dlc_to_size dlc 0) ↔ (round_up_dlc size ≤ dlc)
round_up_dlc_least size dlc h l = agrees_sound size dlc (
    passes_below_at (agrees size) 16
      (passes_below_at (λ s. passes_below (agrees s) 16) 65 agrees_table size (omega arith)) dlc
      (omega arith))
