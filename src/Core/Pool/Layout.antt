-- ===== src/Core/Pool/Layout.antt =====
-- The blocks of a pool.
use spcd_actuator.Prelude.{
  ℕ, zero, suc, ◌+◌, ◌-◌, ◌^◌, ◌==◌, if◌then◌else◌, ◌*◌, ◌/◌, ◌%◌, ◌≤◌, ◌<◌, ◌≡◌, refl, sym, ap,
  ◌∙◌, ◌||◌, ltb, u32, sub32, Bool, true, false, Option, none, some, arith,
}
use native.Mathlib.Nat.{mul-mod_right}
use mathlib.Core.Path.{subst}
use spcd_actuator.Core.Pool.{Pool, clear_bits, aligned, place_if, place}

-- What an allocation of a size gives: halted, or a block that starts at or after the position, is
-- aligned, ends within the pool, and ends where the next one may start.
unfoldable pub IsBlock : ℕ → ℕ → Pool → Option (Pool × ℕ) → Type 0
IsBlock size alignment p none = Unit
IsBlock size alignment p (some (q, address)) =
    (p.base + p.position ≤ address)
    × (address % alignment ≡ 0)
    × (address + size ≤ p.base + p.size)
    × (q.base ≡ p.base)
    × (q.size ≡ p.size)
    × (q.base + q.position ≡ address + size)

offset_of :
    (base address : ℕ)
    → base ≤ address
    → address < 4294967296
    → (address + 4294967296 - base) % 4294967296 ≡ address - base
offset_of base address l u = omega arith

within : (size o n : ℕ) → (ltb size o || ltb (size - o) n) ≡ false → o + n ≤ size
within size o n e = ground arith

ends :
    (base size address n : ℕ)
    → base ≤ address
    → base + size < 4294967296
    → address - base + n ≤ size
    → (address + n ≤ base + size) × (base + (address - base + n) % 4294967296 ≡ address + n)
ends base size address n l h e = (omega arith, omega arith)

-- What a mask of the low bits leaves: the multiple of the power of two at or below.
record IsCleared (a x c : ℕ) : Type 0 where
  quotient : ℕ
  is_multiple : c ≡ a * quotient
  below : c ≤ x
  near : x < c + a

doubled : (a q c : ℕ) → c ≡ a * q → 2 * c + 0 ≡ a * 2 * q
doubled a q c e = grind arith

mask_half : (a m : ℕ) → 0 < a → m ≡ a * 2 - 1 → (m / 2 ≡ a - 1) × ((m % 2 == 0) ≡ false)
mask_half a m z e = ground arith

half_lt : (x p : ℕ) → x < p * 2 → x / 2 < p
half_lt x p h = omega arith

pub power_positive : (k : ℕ) → 0 < 2 ^ k
power_positive zero = omega arith
power_positive (suc k) = let h = power_positive k in omega arith

clear_bits-zero : (w x : ℕ) → x < 2 ^ w → clear_bits w 0 x ≡ x
unfolding clear_bits
clear_bits-zero zero x h = omega arith
clear_bits-zero (suc w) x h =
    let t = clear_bits-zero w (x / 2) (half_lt x (2 ^ w) (omega arith)) in rw t (omega arith)

doubled-IsCleared :
    (a x c m : ℕ)
    → IsCleared a (x / 2) c
    → (m % 2 == 0) ≡ false
    → IsCleared (a * 2) x (2 * c + (if m % 2 == 0 then x % 2 else 0))
doubled-IsCleared a x c m h e =
    let l = h.below in
    let u = h.near in
    rw e (record {
      quotient = h.quotient;
      is_multiple = doubled a h.quotient c h.is_multiple;
      below = omega arith;
      near = omega arith;
    })

clear_bits-IsCleared :
    (w k m x : ℕ) → m ≡ 2 ^ k - 1 → x < 2 ^ w → IsCleared (2 ^ k) x (clear_bits w m x)
unfolding clear_bits
clear_bits-IsCleared w zero m x e h =
    let t = clear_bits-zero w x h in
    subst (λ n. IsCleared 1 x (clear_bits w n x)) (sym e)
      (rw t (record {
        quotient = x;
        is_multiple = omega arith;
        below = omega arith;
        near = omega arith;
      }))
clear_bits-IsCleared zero (suc k) m x e h =
    let p = power_positive k in
    record { quotient = 0; is_multiple = omega arith; below = omega arith; near = omega arith }
clear_bits-IsCleared (suc w) (suc k) m x e h =
    let t = mask_half (2 ^ k) m (power_positive k) (omega arith) in
    subst (λ a. IsCleared a x (clear_bits (suc w) m x)) (omega arith)
      (doubled-IsCleared (2 ^ k) x _ m
        (clear_bits-IsCleared w k (m / 2) (x / 2) t.0 (half_lt x (2 ^ w) (omega arith))) t.1)

-- The alignments that the pool is asked for.
pub record IsPower (a : ℕ) : Type 0 where
  pub exponent : ℕ
  pub power : a ≡ 2 ^ exponent

multiple_mod : (a q c : ℕ) → c ≡ a * q → c % a ≡ 0
multiple_mod a q c e = ap (λ x. x % a) e ∙ mul-mod_right a q

less_one : (a : ℕ) → 0 < a → a < 4294967296 → sub32 a 1 ≡ a - 1
less_one a z h = omega arith

-- No word of the computation wraps around.
no_wrap :
    (base position a : ℕ)
    → 0 < a
    → base + position + a < 4294967296
    → ((base + position) % 4294967296 + a - 1) % 4294967296 ≡ base + position + a - 1
no_wrap base position a z h = omega arith

module _ (p : Pool) (n a : ℕ) (whole : p.position ≤ p.size)
    (room : p.base + p.size + a < 4294967296) where
  place_if-IsBlock :
      (b : Bool) (address : ℕ)
      → p.base + p.position ≤ address
      → address % a ≡ 0
      → address < 4294967296
      → (b ≡ false → sub32 address p.base + n ≤ p.size)
      → IsBlock n a p (place_if b address n p)
  unfolding place_if IsBlock
  place_if-IsBlock true address l m u e = tt
  place_if-IsBlock false address l m u e =
      let o = offset_of p.base address (omega arith) u in
      let t = ends p.base p.size address n (omega arith) (omega arith) (rw (sym o) (e refl)) in
      (l, m, t.0, refl, refl, rw o t.1)

  place-IsBlock :
      (address : ℕ)
      → p.base + p.position ≤ address
      → address % a ≡ 0
      → address < 4294967296
      → IsBlock n a p (place address n p)
  unfolding place
  place-IsBlock address l m u = place_if-IsBlock _ address l m u (λ e. within p.size _ n e)

  pub aligned-IsBlock : IsPower a → IsBlock n a p (place (aligned a p) n p)
  unfolding aligned
  aligned-IsBlock k =
      let z = subst (λ x. 0 < x) (sym k.power) (power_positive k.exponent) in
      let t = no_wrap p.base p.position a z (omega arith) in
      let c =
        clear_bits-IsCleared 32 k.exponent (sub32 a 1) (u32 (u32 (p.base + p.position) + a - 1))
          (less_one a z (omega arith) ∙ ap (λ x. x - 1) k.power) (omega arith) in
      let c' =
        subst (λ x. IsCleared x (u32 (u32 (p.base + p.position) + a - 1)) (aligned a p))
          (sym k.power) c in
      let l = c'.below in
      let u = c'.near in
      place-IsBlock (aligned a p) (omega (l, u, t, arith))
        (multiple_mod a c'.quotient _ c'.is_multiple) (omega (l, t, arith))
