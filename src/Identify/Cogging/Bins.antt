-- ===== src/Identify/Cogging/Bins.antt =====
-- One step of the filling of the gaps.
use spcd_actuator.Prelude.{
  ℕ, ◌+◌, ◌-◌, ◌%◌, ◌<◌, ◌≡◌, refl, sym, ap, ◌∙◌, ◌≢◌, ◌⊎◌, inl, inr, Bool, true, false, List, [],
  ◌∷◌, get_or, set, length, length-set, zero, suc, arith,
}
use spcd_actuator.Floats.{Floats}
use spcd_actuator.Identify.Cogging.Gaps.{
  Gaps, empty_bin, bin_at, is_valid, copy_bin, fill_if, fill_bin,
}

module _ {ℓ} {A : Type ℓ} where
  pub get_or-set_self :
      (xs : List A) (i : ℕ) (v d : A) → i < length xs → get_or (set xs i v) i d ≡ v
  get_or-set_self [] i v d h = elim h [ ]
  get_or-set_self (x ∷ xs) zero v d h = refl
  get_or-set_self (x ∷ xs) (suc i) v d h = get_or-set_self xs i v d (omega arith)

  pub get_or-set_ne :
      (xs : List A) (i j : ℕ) (v d : A) → i ≢ j → get_or (set xs i v) j d ≡ get_or xs j d
  get_or-set_ne [] i j v d h = refl
  get_or-set_ne (x ∷ xs) zero zero v d h = absurd (h refl)
  get_or-set_ne (x ∷ xs) zero (suc j) v d h = refl
  get_or-set_ne (x ∷ xs) (suc i) zero v d h = refl
  get_or-set_ne (x ∷ xs) (suc i) (suc j) v d h = get_or-set_ne xs i j v d (λ e. h (ap suc e))

pub eq_cases : (i j : ℕ) → (i ≡ j) ⊎ (i ≢ j)
eq_cases i j = ground arith

module _ (fl : Floats) where
  -- A bin that is copied to is valid, and the others are as before.
  pub copy_self :
      (s i : ℕ) (g : Gaps fl) → i < length g.bins → is_valid fl (copy_bin fl s i g) i ≡ true
  unfolding is_valid copy_bin bin_at
  copy_self s i g h = rw (get_or-set_self g.bins i _ (empty_bin fl) h) refl

  pub copy_other :
      (s i j : ℕ) (g : Gaps fl) → i ≢ j → is_valid fl (copy_bin fl s i g) j ≡ is_valid fl g j
  unfolding is_valid copy_bin bin_at
  copy_other s i j g n = rw (get_or-set_ne g.bins i j _ (empty_bin fl) n) refl

  pub copy_keeps :
      (s i j : ℕ) (g : Gaps fl)
      → i < length g.bins
      → is_valid fl g j ≡ true
      → is_valid fl (copy_bin fl s i g) j ≡ true
  copy_keeps s i j g h v = elim (eq_cases i j) [
    | inl e ↦ rw (sym e) (copy_self s i g h)
    | inr n ↦ copy_other s i j g n ∙ v
  ]

  length-copy : (s i : ℕ) (g : Gaps fl) → length (copy_bin fl s i g).bins ≡ length g.bins
  unfolding copy_bin
  length-copy s i g = length-set g.bins i _

  -- A step of the filling keeps what is valid, and fills a bin whose left neighbour is valid.
  length-fill_if :
      (v l r : Bool) (size bin : ℕ) (g : Gaps fl)
      → length (fill_if fl v l r size bin g).bins ≡ length g.bins
  unfolding fill_if
  length-fill_if true l r size bin g = refl
  length-fill_if false true r size bin g = length-copy _ bin g
  length-fill_if false false true size bin g = length-copy _ bin g
  length-fill_if false false false size bin g = refl

  fill_if_keeps :
      (v l r : Bool) (size bin j : ℕ) (g : Gaps fl)
      → bin < length g.bins
      → is_valid fl g j ≡ true
      → is_valid fl (fill_if fl v l r size bin g) j ≡ true
  unfolding fill_if
  fill_if_keeps true l r size bin j g h e = e
  fill_if_keeps false true r size bin j g h e = copy_keeps _ bin j g h e
  fill_if_keeps false false true size bin j g h e = copy_keeps _ bin j g h e
  fill_if_keeps false false false size bin j g h e = e

  fill_if_follows :
      (v l r : Bool) (size bin : ℕ) (g : Gaps fl)
      → bin < length g.bins
      → is_valid fl g bin ≡ v
      → l ≡ true
      → is_valid fl (fill_if fl v l r size bin g) bin ≡ true
  unfolding fill_if
  fill_if_follows true l r size bin g h e t = e
  fill_if_follows false true r size bin g h e t = copy_self _ bin g h
  fill_if_follows false false r size bin g h e t = cc

  pub length-fill_bin :
      (size bin : ℕ) (g : Gaps fl) → length (fill_bin fl size bin g).bins ≡ length g.bins
  unfolding fill_bin
  length-fill_bin size bin g = length-fill_if _ _ _ size bin g

  pub fill_bin_keeps :
      (size bin j : ℕ) (g : Gaps fl)
      → bin < length g.bins
      → is_valid fl g j ≡ true
      → is_valid fl (fill_bin fl size bin g) j ≡ true
  unfolding fill_bin
  fill_bin_keeps size bin j g h e = fill_if_keeps _ _ _ size bin j g h e

  pub fill_bin_follows :
      (size bin left : ℕ) (g : Gaps fl)
      → bin < length g.bins
      → (bin + size - 1) % size ≡ left
      → is_valid fl g left ≡ true
      → is_valid fl (fill_bin fl size bin g) bin ≡ true
  unfolding fill_bin
  fill_bin_follows size bin left g h e l =
      fill_if_follows _ _ _ size bin g h refl (ap (is_valid fl g) e ∙ l)
