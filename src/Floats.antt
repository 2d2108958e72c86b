-- ===== src/Floats.antt =====
-- The `float` arithmetic of the target, which is the compiler's and the FPU's, not the repository's:
-- a type with the operations that the source uses. No law is assumed of them but what a theorem names.
pub mod Milli
use spcd_actuator.Prelude.{ℕ, true, ◌+◌, ◌-◌, ◌*◌, ◌/◌, ◌%◌, ◌^◌, Bool, ltb, leb, ◌==◌}

pub record Floats : Type 1 where
  pub F : Type 0
  pub add : F → F → F
  pub sub : F → F → F
  pub mul : F → F → F
  pub div : F → F → F
  pub neg : F → F
  -- `a < b` and `a <= b`, which are false at a NaN; `a > b` is `lt b a`, `a >= b` is `le b a`
  pub lt : F → F → Bool
  pub le : F → F → Bool
  -- `a == b`
  pub eq : F → F → Bool
  -- the literal n * 10 ^ -k: `lit 5 3` is 0.005f
  pub lit : ℕ → ℕ → F
  -- `static_cast<float>` of an int32_t, by its bit pattern, and of an unsigned value
  pub of_i32 : ℕ → F
  -- `static_cast<int32_t>`, as a bit pattern, and `math::foc::IsFinite`, a compiler builtin
  pub to_i32 : F → ℕ
  pub is_finite : F → Bool
  pub of_u32 : ℕ → F
  -- `static_cast<int16_t>`, as a bit pattern, and to unsigned types
  pub to_i16 : F → ℕ
  pub to_u16 : F → ℕ
  pub to_u32 : F → ℕ
  -- the 32 bits of a float, as `memcpy` moves them
  pub of_bits : ℕ → F
  pub to_bits : F → ℕ
  -- `sqrtf`, `sinf`, `cosf` of the C library
  pub sqrt : F → F
  pub sin : F → F
  pub cos : F → F

-- Whole numbers in place of floats, to run the definitions.
abbrev pub whole : Floats
whole = record {
  F = ℕ;
  add = λ a b. a + b;
  sub = λ a b. a - b;
  mul = λ a b. a * b;
  div = λ a b. a / b;
  neg = λ a. a;
  lt = ltb;
  le = leb;
  eq = λ a b. a == b;
  lit = λ n k. n;
  of_i32 = λ n. n;
  of_u32 = λ n. n;
  to_i32 = λ n. n;
  is_finite = λ n. true;
  to_i16 = λ n. n % 65536;
  to_u16 = λ n. n % 65536;
  to_u32 = λ n. n % 2 ^ 32;
  of_bits = λ n. n;
  to_bits = λ n. n;
  sqrt = λ n. n;
  sin = λ n. n;
  cos = λ n. n;
}
