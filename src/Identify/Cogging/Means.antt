-- ===== src/Identify/Cogging/Means.antt =====
-- What the bins of a cogging session hold after its gaps are filled: means of bins that both directions
-- covered.
use spcd_actuator.Prelude.{
  ℕ, ◌+◌, ◌≤◌, ◌<◌, ◌≡◌, ◌⊎◌, inl, inr, refl, sym, ap, ◌∙◌, Bool, Bool-cases, true, false, ◌&&◌,
  if◌then◌else◌, ltb, leb, get_or, length, List, [], ◌∷◌, arith,
}
use mathlib.Core.Path.{subst}
use spcd_actuator.Floats.{Floats}
use spcd_actuator.Identify.Cogging.Gaps.{
  Bin, Gaps, empty_bin, is_covered, mean, average_bin, average_bins, bin_at, is_valid, fill_passes,
}
use spcd_actuator.Identify.Cogging.Session.{Session, table_size}
use spcd_actuator.Identify.Cogging.Count.{
  count_valid, full_valid, average_bins-counted, length-average_bins,
}
use spcd_actuator.Identify.Cogging.Sources.{AllDrawn, fill_passes-AllDrawn, average_bins-AllDrawn}
use spcd_actuator.Identify.Cogging.Full.{averages_fill, fill_passes-counted, length-fill_passes}

pub positive : (n : ℕ) → ltb n 768 ≡ false → 0 < n
positive n h = ground arith

not_below : (n c : ℕ) → ltb n table_size ≡ false → n ≡ c → table_size ≤ c
not_below n c h e = ground arith

module _ (fl : Floats) where
  -- Both directions covered the bin, and the mean of both directions.
  abbrev pub IsCovered : ℕ → Bin fl → Type 0
  IsCovered least b = (least ≤ b.count0) × (least ≤ b.count1)

  abbrev pub both_mean : Bin fl → fl.F
  both_mean b =
      fl.mul (fl.lit 5 1)
        (fl.add (fl.div b.sum0 (fl.of_u32 b.count0)) (fl.div b.sum1 (fl.of_u32 b.count1)))

  -- The number of the bins that both directions covered.
  abbrev pub count_covered : ℕ → List (Bin fl) → ℕ
  count_covered least [] = 0
  count_covered least (b ∷ bs) =
      (if leb least b.count0 && leb least b.count1 then 1 else 0) + count_covered least bs

  abbrev pub covered_count : Session fl → ℕ
  covered_count s = count_covered s.options.min_count_per_bin s.bins

  valid_count-average_bin :
      (c : Bool) (b : Bin fl) (g : Gaps fl)
      → (average_bin fl c b g).valid_count ≡ (if c then 1 else 0) + g.valid_count
  unfolding average_bin
  valid_count-average_bin true b g = omega arith
  valid_count-average_bin false b g = omega arith

  pub valid_count-average_bins :
      (least : ℕ) (bs : List (Bin fl))
      → (average_bins fl least bs).valid_count ≡ count_covered least bs
  unfolding average_bins is_covered
  valid_count-average_bins least [] = refl
  valid_count-average_bins least (b ∷ bs) =
      valid_count-average_bin _ b _
      ∙ ap (λ n. (if leb least b.count0 && leb least b.count1 then 1 else 0) + n)
          (valid_count-average_bins least bs)

  -- A bin after the end: its own mean where both directions covered it, and elsewhere the mean of some
  -- bin that both directions covered.
  abbrev pub HasMean : Session fl → ℕ → fl.F → Type 0
  HasMean s j x =
      (IsCovered s.options.min_count_per_bin (get_or s.bins j (empty_bin fl))
        × (x ≡ both_mean (get_or s.bins j (empty_bin fl))))
      ⊎ ((¬ IsCovered s.options.min_count_per_bin (get_or s.bins j (empty_bin fl)))
          × ((m : ℕ) × (m < length s.bins)
              × IsCovered s.options.min_count_per_bin (get_or s.bins m (empty_bin fl))
              × (x ≡ both_mean (get_or s.bins m (empty_bin fl)))))

  is_covered-IsCovered : (least : ℕ) (b : Bin fl) → is_covered fl least b ≡ true → IsCovered least b
  unfolding is_covered
  is_covered-IsCovered least b e = ground arith

  not-IsCovered : (least : ℕ) (b : Bin fl) → is_covered fl least b ≡ false → ¬ IsCovered least b
  unfolding is_covered
  not-IsCovered least b e (l, r) = ground arith

  -- The bins after the passes, where none is missing.
  pub filled-HasMean :
      (s : Session fl) (j : ℕ)
      → length s.bins ≡ table_size
      → j < table_size
      → ltb (covered_count s) 768 ≡ false
      → let g = average_bins fl s.options.min_count_per_bin s.bins in
        HasMean s j (get_or (fill_passes fl table_size 4 g).bins j (empty_bin fl)).sum0
  unfolding bin_at is_valid mean
  filled-HasMean s j n u e =
      elim (Bool-cases (is_covered fl least (get_or s.bins j (empty_bin fl)))) [
        | inl c ↦ inl (is_covered-IsCovered least _ c, (all.own j (omega arith) c).1)
        | inr c ↦
            (let t =
                all.drawn j (full_valid fl _ j (omega (arith, full, len)) (omega (arith, len))) in
              inr (
                not-IsCovered least _ c,
                (t.source, t.inside, is_covered-IsCovered least _ t.covered, t.value),
              ))
      ]
    where
      least : ℕ
      least = s.options.min_count_per_bin

      g : Gaps fl
      g = average_bins fl least s.bins

      same : table_size ≡ length g.bins
      same = sym (length-average_bins fl least s.bins ∙ n)

      all : AllDrawn fl least s.bins (fill_passes fl table_size 4 g)
      all =
          fill_passes-AllDrawn fl least s.bins table_size 4 g same
            (average_bins-AllDrawn fl least s.bins (length-average_bins fl least s.bins))

      len : length (fill_passes fl table_size 4 g).bins ≡ table_size
      len = length-fill_passes fl table_size 4 g ∙ sym same

      full : table_size ≤ count_valid fl (fill_passes fl table_size 4 g).bins
      full =
          not_below _ _
            (averages_fill fl table_size least s.bins (sym n)
              (subst (λ c. 0 < c) (sym (valid_count-average_bins least s.bins)) (positive _ e)))
            (fill_passes-counted fl table_size 4 g same (average_bins-counted fl least s.bins))
