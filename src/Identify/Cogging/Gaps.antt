-- ===== src/Identify/Cogging/Gaps.antt =====
-- cogging.h: the bins, their averages in `Finish`, and the filling of the bins that were not covered.
use spcd_actuator.Prelude.{
  ℕ, ◌+◌, ◌-◌, ◌%◌, Bool, true, false, ◌&&◌, not, ltb, leb, ◌==◌, List, [], ◌∷◌, get_or, set, zero,
  suc,
}
use spcd_actuator.Floats.{Floats}

-- A bin of both directions: the sum and the count forward, and in reverse.
pub record Bin (fl : Floats) : Type 0 where
  pub sum0 : fl.F
  pub count0 : ℕ
  pub sum1 : fl.F
  pub count1 : ℕ

-- The bins in `Finish`, where the forward count says whether a bin is valid, and `valid_count`.
pub record Gaps (fl : Floats) : Type 0 where
  pub bins : List (Bin fl)
  pub valid_count : ℕ

module _ (fl : Floats) where
  abbrev pub empty_bin : Bin fl
  empty_bin = record { sum0 = fl.lit 0 0; count0 = 0; sum1 = fl.lit 0 0; count1 = 0 }

  -- The average of a bin that both directions covered.
  unfoldable pub is_covered : ℕ → Bin fl → Bool
  is_covered min_count b = leb min_count b.count0 && leb min_count b.count1

  unfoldable pub mean : Bin fl → fl.F
  mean b =
      fl.mul (fl.lit 5 1)
        (fl.add (fl.div b.sum0 (fl.of_u32 b.count0)) (fl.div b.sum1 (fl.of_u32 b.count1)))

  -- The first loop of `Finish`, bin by bin
  unfoldable pub average_bin : Bool → Bin fl → Gaps fl → Gaps fl
  average_bin true b g = record {
    bins = record b { sum0 = mean b; count0 = 1 } ∷ g.bins;
    valid_count = g.valid_count + 1;
  }
  average_bin false b g = record {
    bins = record b { sum0 = fl.lit 0 0; count0 = 0 } ∷ g.bins;
    valid_count = g.valid_count;
  }

  unfoldable pub average_bins : ℕ → List (Bin fl) → Gaps fl
  average_bins min_count [] = record { bins = []; valid_count = 0 }
  average_bins min_count (b ∷ bs) =
      average_bin (is_covered min_count b) b (average_bins min_count bs)

  unfoldable pub bin_at : List (Bin fl) → ℕ → Bin fl
  bin_at bins i = get_or bins i empty_bin

  unfoldable pub is_valid : Gaps fl → ℕ → Bool
  is_valid g i = not ((bin_at g.bins i).count0 == 0)

  -- A bin takes the value of a neighbour.
  unfoldable pub copy_bin : ℕ → ℕ → Gaps fl → Gaps fl
  copy_bin source bin g = record {
    bins =
        set g.bins bin
          (record (bin_at g.bins bin) { sum0 = (bin_at g.bins source).sum0; count0 = 1 });
    valid_count = g.valid_count + 1;
  }

  -- The body of the second loop, by whether the bin, its left and its right neighbour are valid
  unfoldable pub fill_if : Bool → Bool → Bool → ℕ → ℕ → Gaps fl → Gaps fl
  fill_if true left right size bin g = g
  fill_if false true right size bin g = copy_bin ((bin + size - 1) % size) bin g
  fill_if false false true size bin g = copy_bin ((bin + 1) % size) bin g
  fill_if false false false size bin g = g

  unfoldable pub fill_bin : ℕ → ℕ → Gaps fl → Gaps fl
  fill_bin size bin g =
      fill_if (is_valid g bin) (is_valid g ((bin + size - 1) % size))
        (is_valid g ((bin + 1) % size)) size bin g

  -- A pass from a bin over so many bins, and the passes while bins are missing
  unfoldable pub fill_pass : ℕ → ℕ → ℕ → Gaps fl → Gaps fl
  fill_pass size bin zero g = g
  fill_pass size bin (suc k) g = fill_pass size (bin + 1) k (fill_bin size bin g)

  unfoldable pub pass_if : Bool → ℕ → Gaps fl → Gaps fl
  pass_if true size g = fill_pass size 0 size g
  pass_if false size g = g

  unfoldable pub fill_passes : ℕ → ℕ → Gaps fl → Gaps fl
  fill_passes size zero g = g
  fill_passes size (suc passes) g =
      fill_passes size passes (pass_if (ltb g.valid_count size) size g)
