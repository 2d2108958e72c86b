-- ===== src/Identify/Cogging/Full.antt =====
-- The filling of the gaps completes: two passes fill every bin from one valid bin.
use spcd_actuator.Prelude.{
  ℕ, ◌<◌, ◌≡◌, refl, sym, ap, ◌∙◌, Bool, true, false, ltb, List, length, zero, suc, arith,
}
use mathlib.Core.Path.{subst}
use spcd_actuator.Floats.{Floats}
use spcd_actuator.Identify.Cogging.Gaps.{
  Bin, Gaps, average_bins, bin_at, is_valid, fill_pass, pass_if, fill_passes,
}
use spcd_actuator.Identify.Cogging.Passes.{length-fill_pass, first_pass, second_pass}
use spcd_actuator.Identify.Cogging.Count.{
  count_valid, all_valid, fill_pass-counted, some_valid, average_bins-counted, length-average_bins,
}

reached : (size count len : ℕ) → size ≡ len → count ≡ len → ltb count size ≡ false
reached size count len n c = ground arith

module _ (fl : Floats) where
  -- Passes after none is missing change nothing.
  passes_stay :
      (size p : ℕ) (g : Gaps fl) → ltb g.valid_count size ≡ false → fill_passes fl size p g ≡ g
  unfolding fill_passes pass_if
  passes_stay size zero g h = refl
  passes_stay size (suc p) g h = rw h (passes_stay size p g h)

  full_pass :
      (k : ℕ) (g : Gaps fl)
      → suc k ≡ length g.bins
      → g.valid_count ≡ count_valid fl g.bins
      → is_valid fl g k ≡ true
      → ltb (fill_pass fl (suc k) 0 (suc k) g).valid_count (suc k) ≡ false
  unfolding is_valid bin_at
  full_pass k g n c e =
      reached (suc k) _ (length (fill_pass fl (suc k) 0 (suc k) g).bins)
        (n ∙ sym (length-fill_pass fl (suc k) 0 (suc k) g))
        (fill_pass-counted fl (suc k) 0 (suc k) g (omega arith) c
          ∙ all_valid fl (fill_pass fl (suc k) 0 (suc k) g).bins (λ j u.
            second_pass fl k j g n e (omega (arith, length-fill_pass fl (suc k) 0 (suc k) g))))

  -- The passes after one pass, where a bin is missing.
  stay_at :
      (size p : ℕ) (g : Gaps fl)
      → ltb g.valid_count size ≡ false
      → ltb (fill_passes fl size p g).valid_count size ≡ false
  stay_at size p g h = ap (λ t. ltb t.valid_count size) (passes_stay size p g h) ∙ h

  after_pass :
      (b : Bool) (size p : ℕ) (g : Gaps fl)
      → (b ≡ false → ltb g.valid_count size ≡ false)
      → (b ≡ true
          → ltb (fill_passes fl size p (fill_pass fl size 0 size g)).valid_count size ≡ false)
      → ltb (fill_passes fl size p (pass_if fl b size g)).valid_count size ≡ false
  unfolding pass_if
  after_pass true size p g none missing = missing refl
  after_pass false size p g none missing = stay_at size p g (none refl)

  last_passes :
      (k p : ℕ) (g : Gaps fl)
      → suc k ≡ length g.bins
      → g.valid_count ≡ count_valid fl g.bins
      → is_valid fl g k ≡ true
      → ltb (fill_passes fl (suc k) (suc p) g).valid_count (suc k) ≡ false
  unfolding fill_passes
  last_passes k p g n c e =
      after_pass (ltb g.valid_count (suc k)) (suc k) p g (λ f. f)
        (λ t. stay_at (suc k) p _ (full_pass k g n c e))

  -- Two passes over bins of which one is valid and whose count is right leave none missing.
  passes_complete :
      (k m p : ℕ) (g : Gaps fl)
      → suc k ≡ length g.bins
      → g.valid_count ≡ count_valid fl g.bins
      → m < suc k
      → is_valid fl g m ≡ true
      → ltb (fill_passes fl (suc k) (suc (suc p)) g).valid_count (suc k) ≡ false
  unfolding fill_passes
  passes_complete k m p g n c h e =
      after_pass (ltb g.valid_count (suc k)) (suc k) (suc p) g (λ f. f)
        (λ t.
          last_passes k p (fill_pass fl (suc k) 0 (suc k) g)
            (n ∙ sym (length-fill_pass fl (suc k) 0 (suc k) g))
            (fill_pass-counted fl (suc k) 0 (suc k) g (omega arith) c) (first_pass fl k m g n h e))

  -- Where any bin of a table was covered, the passes leave none missing.
  pub averages_fill :
      (size min_count : ℕ) (bs : List (Bin fl))
      → size ≡ length bs
      → 0 < (average_bins fl min_count bs).valid_count
      → ltb (fill_passes fl size 4 (average_bins fl min_count bs)).valid_count size ≡ false
  unfolding is_valid bin_at
  averages_fill zero min_count bs n h = ground arith
  averages_fill (suc k) min_count bs n h =
      let g = average_bins fl min_count bs in
      let found =
        some_valid fl g.bins (subst (λ c. 0 < c) (average_bins-counted fl min_count bs) h) in
      passes_complete k found.0 2 g (n ∙ sym (length-average_bins fl min_count bs))
        (average_bins-counted fl min_count bs)
        (omega (arith, found.1, length-average_bins fl min_count bs, n)) found.2

  pass_if-counted :
      (b : Bool) (size : ℕ) (g : Gaps fl)
      → size ≡ length g.bins
      → g.valid_count ≡ count_valid fl g.bins
      → (size ≡ length (pass_if fl b size g).bins)
        × ((pass_if fl b size g).valid_count ≡ count_valid fl (pass_if fl b size g).bins)
  unfolding pass_if
  pass_if-counted true size g n c = (
    n ∙ sym (length-fill_pass fl size 0 size g),
    fill_pass-counted fl size 0 size g (omega arith) c,
  )
  pass_if-counted false size g n c = (n, c)

  pub fill_passes-counted :
      (size p : ℕ) (g : Gaps fl)
      → size ≡ length g.bins
      → g.valid_count ≡ count_valid fl g.bins
      → (fill_passes fl size p g).valid_count ≡ count_valid fl (fill_passes fl size p g).bins
  unfolding fill_passes
  fill_passes-counted size zero g n c = c
  fill_passes-counted size (suc p) g n c =
      let t = pass_if-counted (ltb g.valid_count size) size g n c in
      fill_passes-counted size p _ t.0 t.1

  -- The passes keep the number of the bins.
  length-pass_if :
      (b : Bool) (size : ℕ) (g : Gaps fl) → length (pass_if fl b size g).bins ≡ length g.bins
  unfolding pass_if
  length-pass_if true size g = length-fill_pass fl size 0 size g
  length-pass_if false size g = refl

  pub length-fill_passes :
      (size p : ℕ) (g : Gaps fl) → length (fill_passes fl size p g).bins ≡ length g.bins
  unfolding fill_passes
  length-fill_passes size zero g = refl
  length-fill_passes size (suc p) g =
      length-fill_passes size p (pass_if fl (ltb g.valid_count size) size g)
      ∙ length-pass_if _ size g
