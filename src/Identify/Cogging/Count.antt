-- ===== src/Identify/Cogging/Count.antt =====
-- The count of the valid bins.
use spcd_actuator.Prelude.{
  ℕ, ◌+◌, ◌≤◌, ◌<◌, ◌≡◌, refl, sym, ap, ◌∙◌, inl, inr, Bool, true, false, not, if◌then◌else◌, ◌==◌,
  List, [], ◌∷◌, get_or, set, length, zero, suc, Bool-cases, arith,
}
use spcd_actuator.Floats.{Floats}
use spcd_actuator.Identify.Cogging.Gaps.{
  Bin, Gaps, empty_bin, average_bin, average_bins, bin_at, is_valid, copy_bin, fill_if, fill_bin,
  fill_pass,
}
use spcd_actuator.Identify.Cogging.Bins.{length-fill_bin}

weight_new :
    (m n t : ℕ)
    → not (m == 0) ≡ false
    → n ≡ 1
    → (if n == 0 then 0 else 1) + t ≡ (if m == 0 then 0 else 1) + t + 1
weight_new m n t e one = ground arith

weight_valid : (m t u : ℕ) → not (m == 0) ≡ true → t ≡ u → (if m == 0 then 0 else 1) + t ≡ suc u
weight_valid m t u e h = ground arith

weight_rest : (m t : ℕ) → not (m == 0) ≡ false → 0 < (if m == 0 then 0 else 1) + t → 0 < t
weight_rest m t e h = ground arith

weight_le : (m t n : ℕ) → t ≤ n → (if m == 0 then 0 else 1) + t ≤ suc n
weight_le m t n h = ground arith

weight_full : (m t n : ℕ) → suc n ≤ (if m == 0 then 0 else 1) + t → t ≤ n → not (m == 0) ≡ true
weight_full m t n h l = ground arith

weight_tail : (m t n : ℕ) → suc n ≤ (if m == 0 then 0 else 1) + t → n ≤ t
weight_tail m t n h = ground arith

module _ (fl : Floats) where
  -- The bins that are valid, and the count of them.
  unfoldable pub count_valid : List (Bin fl) → ℕ
  count_valid [] = 0
  count_valid (b ∷ bs) = (if b.count0 == 0 then 0 else 1) + count_valid bs

  count_valid-set :
      (bs : List (Bin fl)) (i : ℕ) (b : Bin fl)
      → i < length bs
      → not ((get_or bs i (empty_bin fl)).count0 == 0) ≡ false
      → b.count0 ≡ 1
      → count_valid (set bs i b) ≡ count_valid bs + 1
  unfolding count_valid
  count_valid-set [] i b h e one = elim h [ ]
  count_valid-set (x ∷ bs) zero b h e one = weight_new x.count0 b.count0 (count_valid bs) e one
  count_valid-set (x ∷ bs) (suc i) b h e one =
      omega (arith, count_valid-set bs i b (omega arith) e one)

  pub all_valid :
      (bs : List (Bin fl))
      → ((j : ℕ) → j < length bs → not ((get_or bs j (empty_bin fl)).count0 == 0) ≡ true)
      → count_valid bs ≡ length bs
  unfolding count_valid
  all_valid [] h = refl
  all_valid (b ∷ bs) h =
      weight_valid b.count0 (count_valid bs) (length bs) (h 0 (omega arith))
        (all_valid bs (λ j u. h (suc j) (omega arith)))

  copy-counted :
      (source bin : ℕ) (g : Gaps fl)
      → bin < length g.bins
      → is_valid fl g bin ≡ false
      → g.valid_count ≡ count_valid g.bins
      → (copy_bin fl source bin g).valid_count ≡ count_valid (copy_bin fl source bin g).bins
  unfolding copy_bin is_valid bin_at
  copy-counted source bin g h e c = ap (λ n. n + 1) c ∙ sym (count_valid-set g.bins bin _ h e refl)

  fill_if-counted :
      (v l r : Bool) (size bin : ℕ) (g : Gaps fl)
      → bin < length g.bins
      → is_valid fl g bin ≡ v
      → g.valid_count ≡ count_valid g.bins
      → (fill_if fl v l r size bin g).valid_count ≡ count_valid (fill_if fl v l r size bin g).bins
  unfolding fill_if
  fill_if-counted true l r size bin g h e c = c
  fill_if-counted false true r size bin g h e c = copy-counted _ bin g h e c
  fill_if-counted false false true size bin g h e c = copy-counted _ bin g h e c
  fill_if-counted false false false size bin g h e c = c

  fill_bin-counted :
      (size bin : ℕ) (g : Gaps fl)
      → bin < length g.bins
      → g.valid_count ≡ count_valid g.bins
      → (fill_bin fl size bin g).valid_count ≡ count_valid (fill_bin fl size bin g).bins
  unfolding fill_bin
  fill_bin-counted size bin g h c = fill_if-counted _ _ _ size bin g h refl c

  pub fill_pass-counted :
      (size bin k : ℕ) (g : Gaps fl)
      → bin + k ≤ length g.bins
      → g.valid_count ≡ count_valid g.bins
      → (fill_pass fl size bin k g).valid_count ≡ count_valid (fill_pass fl size bin k g).bins
  unfolding fill_pass
  fill_pass-counted size bin zero g h c = c
  fill_pass-counted size bin (suc k) g h c =
      fill_pass-counted size (bin + 1) k (fill_bin fl size bin g)
        (omega (arith, length-fill_bin fl size bin g)) (fill_bin-counted size bin g (omega arith) c)

  count_valid-le : (bs : List (Bin fl)) → count_valid bs ≤ length bs
  unfolding count_valid
  count_valid-le [] = omega arith
  count_valid-le (b ∷ bs) = weight_le b.count0 _ _ (count_valid-le bs)

  -- Where as many bins are valid as there are, each of them is.
  pub full_valid :
      (bs : List (Bin fl)) (j : ℕ)
      → length bs ≤ count_valid bs
      → j < length bs
      → not ((get_or bs j (empty_bin fl)).count0 == 0) ≡ true
  unfolding count_valid
  full_valid [] j h u = elim u [ ]
  full_valid (b ∷ bs) zero h u = weight_full b.count0 _ _ h (count_valid-le bs)
  full_valid (b ∷ bs) (suc j) h u = full_valid bs j (weight_tail b.count0 _ _ h) (omega arith)

  -- A valid bin among those that are counted.
  pub some_valid :
      (bs : List (Bin fl))
      → 0 < count_valid bs
      → (m : ℕ) × (m < length bs) × (not ((get_or bs m (empty_bin fl)).count0 == 0) ≡ true)
  unfolding count_valid
  some_valid [] h = elim h [ ]
  some_valid (b ∷ bs) h = elim (Bool-cases (not (b.count0 == 0))) [
    | inl e ↦ (0, omega arith, e)
    | inr e ↦ later bs (some_valid bs (weight_rest b.count0 (count_valid bs) e h))
  ]
    where
      later :
          (bs : List (Bin fl))
          → (m : ℕ) × (m < length bs) × (not ((get_or bs m (empty_bin fl)).count0 == 0) ≡ true)
          → (m : ℕ) × (m < length (b ∷ bs))
            × (not ((get_or (b ∷ bs) m (empty_bin fl)).count0 == 0) ≡ true)
      later bs (m, h, e) = (suc m, omega arith, e)

  -- The averages have the bins' number, and their count is right.
  average_bin-counted :
      (v : Bool) (b : Bin fl) (g : Gaps fl)
      → g.valid_count ≡ count_valid g.bins
      → (average_bin fl v b g).valid_count ≡ count_valid (average_bin fl v b g).bins
  unfolding average_bin count_valid
  average_bin-counted true b g c = omega (arith, c)
  average_bin-counted false b g c = omega (arith, c)

  pub average_bins-counted :
      (min_count : ℕ) (bs : List (Bin fl))
      → (average_bins fl min_count bs).valid_count ≡ count_valid (average_bins fl min_count bs).bins
  unfolding average_bins count_valid
  average_bins-counted min_count [] = refl
  average_bins-counted min_count (b ∷ bs) =
      average_bin-counted _ b _ (average_bins-counted min_count bs)

  length-average_bin :
      (v : Bool) (b : Bin fl) (g : Gaps fl)
      → length (average_bin fl v b g).bins ≡ suc (length g.bins)
  unfolding average_bin
  length-average_bin true b g = refl
  length-average_bin false b g = refl

  pub length-average_bins :
      (min_count : ℕ) (bs : List (Bin fl)) → length (average_bins fl min_count bs).bins ≡ length bs
  unfolding average_bins
  length-average_bins min_count [] = refl
  length-average_bins min_count (b ∷ bs) =
      length-average_bin _ b _ ∙ ap suc (length-average_bins min_count bs)
