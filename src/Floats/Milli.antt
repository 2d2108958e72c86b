-- ===== src/Floats/Milli.antt =====
-- Signed thousandths with a NaN in place of floats, to run the definitions: the number n stands for
-- (n - 10 ^ 9) / 1000, and 0 for the NaN.
use spcd_actuator.Prelude.{
  ℕ, ◌≡◌, Bool, false, ◌||◌, not, if◌then◌else◌, ◌+◌, ◌-◌, ◌*◌, ◌/◌, ◌%◌, ◌^◌, ltb, leb, ◌==◌,
  arith,
}
use spcd_actuator.Floats.{Floats}

abbrev origin : ℕ
origin = 1000000000

abbrev pub is_nan : ℕ → Bool
is_nan a = a == 0

abbrev is_negative : ℕ → Bool
is_negative a = ltb a origin

abbrev magnitude : ℕ → ℕ
magnitude a = if ltb a origin then origin - a else a - origin

-- The number of a magnitude, with a sign.
abbrev signed : Bool → ℕ → ℕ
signed negative m = if negative then origin - m else origin + m

abbrev differ : ℕ → ℕ → Bool
differ a b = if is_negative a then not (is_negative b) else is_negative b

-- NaN where one of the operands is.
abbrev both : ℕ → ℕ → ℕ → ℕ
both a b n = if is_nan a || is_nan b then 0 else n

abbrev pub lt_milli : ℕ → ℕ → Bool
lt_milli a b = if is_nan a || is_nan b then false else ltb a b

-- `thousandths n` is n / 1000.
abbrev pub thousandths : ℕ → ℕ
thousandths n = origin + n

abbrev pub nan : ℕ
nan = 0

abbrev pub milli : Floats
milli = record {
  F = ℕ;
  add = λ a b. both a b (a + b - origin);
  sub = λ a b. both a b (a + origin - b);
  mul = λ a b. both a b (signed (differ a b) (magnitude a * magnitude b / 1000));
  div = λ a b.
      if magnitude b == 0
      then 0
      else both a b (signed (differ a b) (magnitude a * 1000 / magnitude b));
  neg = λ a. if is_nan a then 0 else 2 * origin - a;
  lt = lt_milli;
  le = λ a b. if is_nan a || is_nan b then false else leb a b;
  eq = λ a b. if is_nan a || is_nan b then false else a == b;
  lit = λ n k. origin + n * 1000 / 10 ^ k;
  of_i32 = λ n. origin + n * 1000;
  of_u32 = λ n. origin + n * 1000;
  to_i32 = λ a. magnitude a / 1000;
  is_finite = λ a. not (is_nan a);
  to_i16 = λ a. magnitude a / 1000;
  to_u16 = λ a. magnitude a / 1000 % 65536;
  to_u32 = λ a. magnitude a / 1000;
  of_bits = λ n. if n == 2143289344 then 0 else n;
  to_bits = λ a. a;
  sqrt = λ a. a;
  sin = λ a. origin;
  cos = λ a. origin + 1000;
}

pub lt_milli_irreflexive : (a : ℕ) → lt_milli a a ≡ false
lt_milli_irreflexive a = ground arith
