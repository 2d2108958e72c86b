-- ===== src/Core/Pool.antt =====
-- fw/core/inc/core/memory/pool.h: the bump allocator. An allocation that does not fit halts the source
-- in an endless loop, and is `none` here.
pub mod Layout
pub mod Runs
mod Tests
use spcd_actuator.Prelude.{
  ℕ, zero, suc, ◌+◌, ◌-◌, ◌*◌, ◌/◌, ◌%◌, ◌==◌, ◌||◌, ltb, u32, sub32, if◌then◌else◌, Bool, true,
  false, Option, none, some, List, [], ◌∷◌,
}

-- The members of `Pool`; the data is its address.
pub record Pool : Type 0 where
  pub base : ℕ
  pub size : ℕ
  pub position : ℕ

-- `x & ~mask` on words of `w` bits, bit by bit from the lowest.
unfoldable pub clear_bits : ℕ → ℕ → ℕ → ℕ
clear_bits zero mask x = 0
clear_bits (suc w) mask x =
    let high = clear_bits w (mask / 2) (x / 2) in 2 * high + (if mask % 2 == 0 then x % 2 else 0)

-- The address that the mask leaves. A power of two is aligned by it; for another alignment it is what
-- the mask makes of it.
unfoldable pub aligned : ℕ → Pool → ℕ
aligned alignment p =
    clear_bits 32 (sub32 alignment 1) (u32 (u32 (p.base + p.position) + alignment - 1))

-- `Allocate`, by whether the block does not fit
unfoldable pub place_if : Bool → ℕ → ℕ → Pool → Option (Pool × ℕ)
place_if true address size p = none
place_if false address size p =
    some (record p { position = u32 (sub32 address p.base + size) }, address)

unfoldable pub place : ℕ → ℕ → Pool → Option (Pool × ℕ)
place address size p =
    let offset = sub32 address p.base in
    place_if (ltb p.size offset || ltb (p.size - offset) size) address size p

unfoldable pub allocate : ℕ → ℕ → Pool → Option (Pool × ℕ)
allocate size alignment p = place (aligned (if alignment == 0 then 1 else alignment) p) size p
