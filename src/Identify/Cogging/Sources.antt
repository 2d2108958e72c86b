-- ===== src/Identify/Cogging/Sources.antt =====
-- Where the values of the filled bins come from.
use spcd_actuator.Prelude.{
  ℕ, ◌+◌, ◌-◌, ◌%◌, ◌≤◌, ◌<◌, ◌≡◌, refl, sym, ap, ◌∙◌, ◌≢◌, ◌⊎◌, inl, inr, Bool, true, false, not,
  ltb, ◌==◌, List, [], ◌∷◌, length, zero, suc, arith,
}
use spcd_actuator.Floats.{Floats}
use spcd_actuator.Identify.Cogging.Gaps.{
  Bin, Gaps, empty_bin, is_covered, mean, average_bin, average_bins, bin_at, is_valid, copy_bin,
  fill_if, fill_bin, fill_pass, pass_if, fill_passes,
}
use spcd_actuator.Identify.Cogging.Bins.{
  eq_cases, copy_other, get_or-set_self, get_or-set_ne, length-fill_bin,
}
use spcd_actuator.Identify.Cogging.Passes.{length-fill_pass}

invalid : (b : Bool) → b ≡ true → b ≡ false → ⊥
invalid b t f = cc

module _ (fl : Floats) (min_count : ℕ) where
  -- A value is the mean of a bin that both directions covered.
  pub record Drawn (bs : List (Bin fl)) (x : fl.F) : Type 0 where
    pub source : ℕ
    pub inside : source < length bs
    pub covered : is_covered fl min_count (bin_at fl bs source) ≡ true
    pub value : x ≡ mean fl (bin_at fl bs source)

  -- The covered bins have their own means, and every valid bin the mean of a covered one.
  pub record AllDrawn (bs : List (Bin fl)) (g : Gaps fl) : Type 0 where
    pub own :
        (j : ℕ)
        → j < length bs
        → is_covered fl min_count (bin_at fl bs j) ≡ true
        → (is_valid fl g j ≡ true) × ((bin_at fl g.bins j).sum0 ≡ mean fl (bin_at fl bs j))
    pub drawn : (j : ℕ) → is_valid fl g j ≡ true → Drawn bs (bin_at fl g.bins j).sum0

  sum0-copy_other :
      (s i j : ℕ) (g : Gaps fl)
      → i ≢ j
      → (bin_at fl (copy_bin fl s i g).bins j).sum0 ≡ (bin_at fl g.bins j).sum0
  unfolding copy_bin bin_at
  sum0-copy_other s i j g n =
      ap (λ (b : Bin fl). b.sum0) (get_or-set_ne g.bins i j _ (empty_bin fl) n)

  sum0-copy_self :
      (s i : ℕ) (g : Gaps fl)
      → i < length g.bins
      → (bin_at fl (copy_bin fl s i g).bins i).sum0 ≡ (bin_at fl g.bins s).sum0
  unfolding copy_bin bin_at
  sum0-copy_self s i g h = ap (λ (b : Bin fl). b.sum0) (get_or-set_self g.bins i _ (empty_bin fl) h)

  copy-AllDrawn :
      (bs : List (Bin fl)) (s i : ℕ) (g : Gaps fl)
      → i < length g.bins
      → is_valid fl g i ≡ false
      → is_valid fl g s ≡ true
      → AllDrawn bs g
      → AllDrawn bs (copy_bin fl s i g)
  copy-AllDrawn bs s i g h e v d = record {
    own = λ j u c. elim (eq_cases i j) [
      | inl same ↦
          absurd (invalid (is_valid fl g j) (d.own j u c).0 (ap (is_valid fl g) (sym same) ∙ e))
      | inr other ↦ (
        copy_other fl s i j g other ∙ (d.own j u c).0,
        sum0-copy_other s i j g other ∙ (d.own j u c).1,
      )
    ];
    drawn = λ j w. elim (eq_cases i j) [
      | inl same ↦
          (let t = d.drawn s v in
            record {
              source = t.source;
              inside = t.inside;
              covered = t.covered;
              value =
                  ap (λ n. (bin_at fl (copy_bin fl s i g).bins n).sum0) (sym same)
                  ∙ sum0-copy_self s i g h
                  ∙ t.value;
            })
      | inr other ↦
          (let t = d.drawn j (sym (copy_other fl s i j g other) ∙ w) in
            record {
              source = t.source;
              inside = t.inside;
              covered = t.covered;
              value = sum0-copy_other s i j g other ∙ t.value;
            })
    ];
  }

  fill_if-AllDrawn :
      (bs : List (Bin fl)) (v l r : Bool) (size bin : ℕ) (g : Gaps fl)
      → bin < length g.bins
      → is_valid fl g bin ≡ v
      → is_valid fl g ((bin + size - 1) % size) ≡ l
      → is_valid fl g ((bin + 1) % size) ≡ r
      → AllDrawn bs g
      → AllDrawn bs (fill_if fl v l r size bin g)
  unfolding fill_if
  fill_if-AllDrawn bs true l r size bin g h e p q d = d
  fill_if-AllDrawn bs false true r size bin g h e p q d = copy-AllDrawn bs _ bin g h e p d
  fill_if-AllDrawn bs false false true size bin g h e p q d = copy-AllDrawn bs _ bin g h e q d
  fill_if-AllDrawn bs false false false size bin g h e p q d = d

  fill_bin-AllDrawn :
      (bs : List (Bin fl)) (size bin : ℕ) (g : Gaps fl)
      → bin < length g.bins
      → AllDrawn bs g
      → AllDrawn bs (fill_bin fl size bin g)
  unfolding fill_bin
  fill_bin-AllDrawn bs size bin g h d = fill_if-AllDrawn bs _ _ _ size bin g h refl refl refl d

  fill_pass-AllDrawn :
      (bs : List (Bin fl)) (size bin k : ℕ) (g : Gaps fl)
      → bin + k ≤ length g.bins
      → AllDrawn bs g
      → AllDrawn bs (fill_pass fl size bin k g)
  unfolding fill_pass
  fill_pass-AllDrawn bs size bin zero g h d = d
  fill_pass-AllDrawn bs size bin (suc k) g h d =
      fill_pass-AllDrawn bs size (bin + 1) k (fill_bin fl size bin g)
        (omega (arith, length-fill_bin fl size bin g))
        (fill_bin-AllDrawn bs size bin g (omega arith) d)

  pass_if-AllDrawn :
      (bs : List (Bin fl)) (b : Bool) (size : ℕ) (g : Gaps fl)
      → size ≡ length g.bins
      → AllDrawn bs g
      → (size ≡ length (pass_if fl b size g).bins) × AllDrawn bs (pass_if fl b size g)
  unfolding pass_if
  pass_if-AllDrawn bs true size g n d = (
    n ∙ sym (length-fill_pass fl size 0 size g),
    fill_pass-AllDrawn bs size 0 size g (omega arith) d,
  )
  pass_if-AllDrawn bs false size g n d = (n, d)

  pub fill_passes-AllDrawn :
      (bs : List (Bin fl)) (size p : ℕ) (g : Gaps fl)
      → size ≡ length g.bins
      → AllDrawn bs g
      → AllDrawn bs (fill_passes fl size p g)
  unfolding fill_passes
  fill_passes-AllDrawn bs size zero g n d = d
  fill_passes-AllDrawn bs size (suc p) g n d =
      let t = pass_if-AllDrawn bs (ltb g.valid_count size) size g n d in
      fill_passes-AllDrawn bs size p _ t.0 t.1

  -- The averages: valid exactly where covered, with the mean.
  average_bin-first :
      (c : Bool) (b : Bin fl) (g : Gaps fl)
      → (is_valid fl (average_bin fl c b g) 0 ≡ c)
        × (c ≡ true → (bin_at fl (average_bin fl c b g).bins 0).sum0 ≡ mean fl b)
  unfolding average_bin is_valid bin_at
  average_bin-first true b g = (refl, λ e. refl)
  average_bin-first false b g = (refl, λ e. cc)

  average_bin-later :
      (c : Bool) (b : Bin fl) (g : Gaps fl) (j : ℕ)
      → bin_at fl (average_bin fl c b g).bins (suc j) ≡ bin_at fl g.bins j
  unfolding average_bin bin_at
  average_bin-later true b g j = refl
  average_bin-later false b g j = refl

  averages :
      (bs : List (Bin fl)) (j : ℕ)
      → j < length bs
      → (is_valid fl (average_bins fl min_count bs) j ≡ is_covered fl min_count (bin_at fl bs j))
        × (is_covered fl min_count (bin_at fl bs j) ≡ true
            → (bin_at fl (average_bins fl min_count bs).bins j).sum0 ≡ mean fl (bin_at fl bs j))
  unfolding average_bins bin_at is_valid
  averages [] j h = elim h [ ]
  averages (b ∷ bs) zero h =
      average_bin-first (is_covered fl min_count b) b (average_bins fl min_count bs)
  averages (b ∷ bs) (suc j) h =
      let later =
        average_bin-later (is_covered fl min_count b) b (average_bins fl min_count bs) j in
      let t = averages bs j (omega arith) in
      (
        ap (λ (x : Bin fl). not (x.count0 == 0)) later ∙ t.0,
        λ c. ap (λ (x : Bin fl). x.sum0) later ∙ t.1 c,
      )

  outside :
      (xs : List (Bin fl)) (j : ℕ) → length xs ≤ j → not ((bin_at fl xs j).count0 == 0) ≡ false
  unfolding bin_at
  outside [] j h = refl
  outside (x ∷ xs) zero h = absurd (omega arith)
  outside (x ∷ xs) (suc j) h = outside xs j (omega arith)

  pub average_bins-AllDrawn :
      (bs : List (Bin fl))
      → length (average_bins fl min_count bs).bins ≡ length bs
      → AllDrawn bs (average_bins fl min_count bs)
  unfolding is_valid
  average_bins-AllDrawn bs n = record {
    own = λ j u c. ((averages bs j u).0 ∙ c, (averages bs j u).1 c);
    drawn = λ j v. elim (side j) [
      | inl u ↦
          (let c = sym (averages bs j u).0 ∙ v in
            record { source = j; inside = u; covered = c; value = (averages bs j u).1 c })
      | inr u ↦
          absurd (invalid _ v (outside (average_bins fl min_count bs).bins j (omega (arith, n))))
    ];
  }
    where
      side : (j : ℕ) → (j < length bs) ⊎ (length bs ≤ j)
      side j = omega arith
