-- ===== src/Boot/Hex.antt =====
-- fw/bootloader/src/BL_CommandServer.cc: hexadecimal numbers, and address ranges.
use spcd_actuator.Prelude.{
  ℕ, ◌+◌, ◌-◌, ◌*◌, ◌/◌, ◌%◌, ◌≤◌, ◌<◌, Bool, true, false, ◌&&◌, Option, none, some, List, [], ◌∷◌,
  ◌++◌, ◌≡◌, refl, arith, if◌then◌else◌, ltb, leb, ◌==◌, u32, length, get_or, sub32, ◌↔◌, ap, ◌∙◌,
  passes_below, passes_below_at,
}

-- `digits`: "0123456789ABCDEF"
abbrev pub hex_digits : List ℕ
hex_digits = 48 ∷ 49 ∷ 50 ∷ 51 ∷ 52 ∷ 53 ∷ 54 ∷ 55 ∷ 56 ∷ 57 ∷ 65 ∷ 66 ∷ 67 ∷ 68 ∷ 69 ∷ 70 ∷ []

-- `uint8_hex`, without the terminating zero.
unfoldable pub uint8_hex : ℕ → List ℕ
uint8_hex value = get_or hex_digits (value / 16) 0 ∷ get_or hex_digits (value % 16) 0 ∷ []

-- `uint32_hex`: the bytes from the highest, two digits each.
unfoldable pub uint32_hex : ℕ → List ℕ
unfolding uint8_hex
uint32_hex value =
    uint8_hex (value / 16777216 % 256)
    ++ (uint8_hex (value / 65536 % 256)
        ++ (uint8_hex (value / 256 % 256) ++ uint8_hex (value % 256)))

-- The digit of a character, as the tests in `hex_to_i` tell it.
pub hex_digit : ℕ → Option ℕ
hex_digit c =
    if leb b'0' c && leb c b'9'
    then some (c - b'0')
    else if leb b'a' c && leb c b'f'
    then some (c - b'a' + 10)
    else if leb b'A' c && leb c b'F'
    then some (c - b'A' + 10)
    else none

-- The loop of `hex_to_i`; a digit is below the 16 that the shift has made room for, so `|=` adds it.
pub hex_loop : ℕ → List ℕ → Option ℕ
unfolding hex_digit
hex_loop result [] = some result
hex_loop result (c ∷ cs) = elim (hex_digit c) [
  | none ↦ none
  | some d ↦ hex_loop (u32 (result * 16) + d) cs
]

unfoldable pub hex_to_i : List ℕ → Option ℕ
unfolding hex_loop
hex_to_i str = if length str == 0 then none else if ltb 8 (length str) then none else hex_loop 0 str

-- `addr_in_range`
unfoldable pub addr_in_range : ℕ → ℕ → ℕ → ℕ → Bool
addr_in_range addr size base end = leb base addr && (leb addr end && leb size (sub32 end addr))

is_digit_of : ℕ → Option ℕ → Bool
is_digit_of d none = false
is_digit_of d (some e) = e == d

hex_digit_table : passes_below (λ d. is_digit_of d (hex_digit (get_or hex_digits d 0))) 16 ≡ true
unfolding passes_below is_digit_of hex_digit
hex_digit_table = refl

is_digit_of_sound : (d : ℕ) (o : Option ℕ) → is_digit_of d o ≡ true → o ≡ some d
unfolding is_digit_of
is_digit_of_sound d none h = cc
is_digit_of_sound d (some e) h = ground arith

hex_digit-get_or : (d : ℕ) → d < 16 → hex_digit (get_or hex_digits d 0) ≡ some d
hex_digit-get_or d h = is_digit_of_sound d (hex_digit (get_or hex_digits d 0)) (
    passes_below_at (λ e. is_digit_of e (hex_digit (get_or hex_digits e 0))) 16 hex_digit_table d h)

hex_loop-digit :
    (result d : ℕ) (cs : List ℕ)
    → d < 16
    → hex_loop result (get_or hex_digits d 0 ∷ cs) ≡ hex_loop (u32 (result * 16) + d) cs
unfolding hex_loop
hex_loop-digit result d cs h = ground (arith, hex_digit-get_or d h)

hex_loop-byte :
    (result b : ℕ) (cs : List ℕ)
    → b < 256
    → result < 16777216
    → hex_loop result (get_or hex_digits (b / 16) 0 ∷ get_or hex_digits (b % 16) 0 ∷ cs)
      ≡ hex_loop (result * 256 + b) cs
hex_loop-byte result b cs h k =
    hex_loop-digit result (b / 16) (get_or hex_digits (b % 16) 0 ∷ cs) (omega arith)
    ∙ hex_loop-digit (u32 (result * 16) + b / 16) (b % 16) cs (omega arith)
    ∙ ap (λ n. hex_loop n cs) (omega arith)

hex_loop-nil : (n : ℕ) → hex_loop n [] ≡ some n
unfolding hex_loop
hex_loop-nil n = refl

-- The two digits that `uint8_hex` writes, `hex_to_i` reads as the byte.
pub hex_to_i-uint8_hex : (value : ℕ) → value < 256 → hex_to_i (uint8_hex value) ≡ some value
unfolding hex_to_i uint8_hex
hex_to_i-uint8_hex value h =
    hex_loop-byte 0 value [] h (omega arith)
    ∙ hex_loop-nil (0 * 256 + value)
    ∙ ap some (omega arith)

-- The eight digits that `uint32_hex` writes, `hex_to_i` reads as the number.
pub hex_to_i-uint32_hex :
    (value : ℕ) → value < 4294967296 → hex_to_i (uint32_hex value) ≡ some value
unfolding hex_to_i uint32_hex
hex_to_i-uint32_hex value h =
    hex_loop-byte 0 b3 (uint8_hex b2 ++ (uint8_hex b1 ++ uint8_hex b0)) (omega arith) (omega arith)
    ∙ hex_loop-byte (0 * 256 + b3) b2 (uint8_hex b1 ++ uint8_hex b0) (omega arith) (omega arith)
    ∙ hex_loop-byte ((0 * 256 + b3) * 256 + b2) b1 (uint8_hex b0) (omega arith) (omega arith)
    ∙ hex_loop-byte (((0 * 256 + b3) * 256 + b2) * 256 + b1) b0 [] (omega arith) (omega arith)
    ∙ hex_loop-nil ((((0 * 256 + b3) * 256 + b2) * 256 + b1) * 256 + b0)
    ∙ ap some (omega arith)
  where
    b3 : ℕ
    b3 = value / 16777216 % 256

    b2 : ℕ
    b2 = value / 65536 % 256

    b1 : ℕ
    b1 = value / 256 % 256

    b0 : ℕ
    b0 = value % 256

-- `addr_in_range` tells exactly whether the bytes from `addr` on, `size` of them, lie between the
-- bounds; no 32-bit sum in it can wrap.
pub addr_in_range_iff :
    (addr size base end : ℕ)
    → addr < 4294967296
    → end < 4294967296
    → (addr_in_range addr size base end ≡ true) ↔ ((base ≤ addr) × (addr + size ≤ end))
unfolding addr_in_range
addr_in_range_iff addr size base end h k = ground arith
