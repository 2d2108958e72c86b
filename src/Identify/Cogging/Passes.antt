-- ===== src/Identify/Cogging/Passes.antt =====
-- A pass of the filling from a valid bin.
use spcd_actuator.Prelude.{
  ℕ, ◌+◌, ◌-◌, ◌%◌, ◌≤◌, ◌<◌, ◌≡◌, refl, sym, ap, ◌∙◌, ◌≢◌, ◌⊎◌, inl, inr, true, length, zero, suc,
  arith,
}
use native.Mathlib.Nat.{mod-eq_of_lt, add-mod_right}
use spcd_actuator.Floats.{Floats}
use spcd_actuator.Identify.Cogging.Gaps.{Gaps, is_valid, fill_bin, fill_pass}
use spcd_actuator.Identify.Cogging.Bins.{
  eq_cases, length-fill_bin, fill_bin_keeps, fill_bin_follows,
}

-- The bin before, and the one before the first.
step_back : (size m : ℕ) → m + 1 + size - 1 ≡ m + size
step_back size m = omega arith

left_of : (size m : ℕ) → m + 1 < size → (m + 1 + size - 1) % size ≡ m
left_of size m h =
    ap (λ x. x % size) (step_back size m) ∙ (add-mod_right m size ∙ mod-eq_of_lt (omega arith))

first_back : (size : ℕ) → 0 + size - 1 ≡ size - 1
first_back size = omega arith

left_of_first : (size : ℕ) → 0 < size → (0 + size - 1) % size ≡ size - 1
left_of_first size h = ap (λ x. x % size) (first_back size) ∙ mod-eq_of_lt (omega arith)

eq-succ_cases : (bin m : ℕ) → bin ≤ m + 1 → (bin ≤ m) ⊎ (bin ≡ m + 1)
eq-succ_cases bin m h = ground arith

last_back : (k : ℕ) → suc k - 1 ≡ k
last_back k = omega arith

left_of_last : (k : ℕ) → (0 + suc k - 1) % suc k ≡ k
left_of_last k = left_of_first (suc k) (omega arith) ∙ last_back k

at_end : (bin m j : ℕ) → bin ≤ m + 1 → m ≤ j → j < bin + 0 → j ≡ m
at_end bin m j b l u = omega arith

after : (m j bin : ℕ) → m ≤ j → j ≢ m → bin ≡ m + 1 → bin ≤ j
after m j bin l other e = ground arith

module _ (fl : Floats) where
  -- A pass that starts at or before the bin after a valid one leaves all from that one on valid.
  pub length-fill_pass :
      (size bin k : ℕ) (g : Gaps fl) → length (fill_pass fl size bin k g).bins ≡ length g.bins
  unfolding fill_pass
  length-fill_pass size bin zero g = refl
  length-fill_pass size bin (suc k) g =
      length-fill_pass size (bin + 1) k (fill_bin fl size bin g) ∙ length-fill_bin fl size bin g

  fill_pass_keeps :
      (size bin k j : ℕ) (g : Gaps fl)
      → bin + k ≤ length g.bins
      → is_valid fl g j ≡ true
      → is_valid fl (fill_pass fl size bin k g) j ≡ true
  unfolding fill_pass
  fill_pass_keeps size bin zero j g h e = e
  fill_pass_keeps size bin (suc k) j g h e =
      fill_pass_keeps size (bin + 1) k j (fill_bin fl size bin g)
        (omega (arith, length-fill_bin fl size bin g))
        (fill_bin_keeps fl size bin j g (omega arith) e)

  fill_pass_reaches :
      (size bin k m j : ℕ) (g : Gaps fl)
      → size ≡ length g.bins
      → bin + k ≤ size
      → bin ≤ m + 1
      → is_valid fl g m ≡ true
      → m ≤ j
      → j < bin + k
      → is_valid fl (fill_pass fl size bin k g) j ≡ true
  unfolding fill_pass
  fill_pass_reaches size bin zero m j g n h b e l u = ap (is_valid fl g) (at_end bin m j b l u) ∙ e
  fill_pass_reaches size bin (suc k) m j g n h b e l u = elim (eq-succ_cases bin m b) [
    | inl le ↦
        fill_pass_reaches size (bin + 1) k m j (fill_bin fl size bin g)
          (n ∙ sym (length-fill_bin fl size bin g)) (omega arith) (omega arith)
          (fill_bin_keeps fl size bin m g (omega arith) e) l (omega arith)
    | inr eq ↦ elim (eq_cases j m) [
      | inl same ↦
          fill_pass_keeps size (bin + 1) k j (fill_bin fl size bin g)
            (omega (arith, length-fill_bin fl size bin g))
            (fill_bin_keeps fl size bin j g (omega arith) (ap (is_valid fl g) same ∙ e))
      | inr other ↦
          fill_pass_reaches size (bin + 1) k bin j (fill_bin fl size bin g)
            (n ∙ sym (length-fill_bin fl size bin g)) (omega arith) (omega arith)
            (fill_bin_follows fl size bin m g (omega arith) (rw eq (left_of size m (omega arith)))
              e)
            (after m j bin l other eq) (omega arith)
    ]
  ]

  -- A pass from a valid bin reaches the last one, and from the last one it reaches all.
  pub first_pass :
      (k m : ℕ) (g : Gaps fl)
      → suc k ≡ length g.bins
      → m < suc k
      → is_valid fl g m ≡ true
      → is_valid fl (fill_pass fl (suc k) 0 (suc k) g) k ≡ true
  first_pass k m g n h e =
      fill_pass_reaches (suc k) 0 (suc k) m k g n (omega arith) (omega arith) e (omega arith)
        (omega arith)

  pub second_pass :
      (k j : ℕ) (g : Gaps fl)
      → suc k ≡ length g.bins
      → is_valid fl g k ≡ true
      → j < suc k
      → is_valid fl (fill_pass fl (suc k) 0 (suc k) g) j ≡ true
  unfolding fill_pass
  second_pass k j g n e u =
      fill_pass_reaches (suc k) 1 k 0 j (fill_bin fl (suc k) 0 g)
        (n ∙ sym (length-fill_bin fl (suc k) 0 g)) (omega arith) (omega arith)
        (fill_bin_follows fl (suc k) 0 k g (omega arith) (left_of_last k) e) (omega arith)
        (omega arith)
