-- ===== src/Prelude/Words.antt =====
-- Machine words as native numbers: the wrap-around of the unsigned C types of the target.
use Prim.Native.Nat.{ℕ, ◌+◌, ◌-◌, ◌%◌, ◌^◌}

abbrev pub u64 : ℕ → ℕ
u64 n = n % 2 ^ 64

-- `uint32_t`, also `size_t` and `unsigned` on the target
abbrev pub u32 : ℕ → ℕ
u32 n = n % 2 ^ 32

-- `(uint32_t)(a - b)`; `-` on ℕ stops at 0, so the modulus is added first.
abbrev pub sub32 : ℕ → ℕ → ℕ
sub32 a b = (a + 2 ^ 32 - b) % 2 ^ 32

abbrev pub u16 : ℕ → ℕ
u16 n = n % 2 ^ 16

-- `uint8_t`
abbrev pub u8 : ℕ → ℕ
u8 n = n % 2 ^ 8
