-- ===== src/Calibration/Upload.antt =====
-- The upload of the compensation table: what the mask of its chunks records.
use spcd_actuator.Prelude.{
  ℕ, zero, suc, ◌/◌, ◌%◌, ◌^◌, ◌<◌, ◌≡◌, refl, ap, ◌∙◌, Bool, true, false, ◌&&◌, ◌||◌, not, List,
  [], ◌∷◌, if◌then◌else◌, ltb, leb, ◌==◌, Bool-cases, ltb→lt, inl, inr, length, bit_or, arith,
  passes_below, passes_below_at,
}
use spcd_actuator.Floats.{Floats}
use spcd_actuator.Calibration.Store.{same_flag}
use spcd_actuator.Calibration.Reboot.{&&-first, &&-second}
use spcd_actuator.Calibration.Encoder.{
  Encoder, clear_compensation, set_compensation_chunk, commit_compensation,
}

-- Is the chunk's bit set in the mask?
unfoldable has : ℕ → ℕ → Bool
has mask chunk = mask / 2 ^ chunk % 2 == 1

unfoldable or_holds : ℕ → ℕ → Bool
or_holds mask chunk =
    let next = bit_or mask (2 ^ chunk) in
    ltb next 256 && passes_below (λ i. same_flag (has next i) (i == chunk || has mask i)) 8

or_table : passes_below (λ mask. passes_below (or_holds mask) 8) 256 ≡ true
unfolding or_holds has same_flag passes_below
or_table = refl

unfoldable full_holds : ℕ → Bool
full_holds mask = same_flag (mask == 255) (passes_below (has mask) 8)

full_table : passes_below full_holds 256 ≡ true
unfolding full_holds has same_flag passes_below
full_table = refl

same_flag-eq : (a b : Bool) → same_flag a b ≡ true → a ≡ b
unfolding same_flag
same_flag-eq true true h = refl
same_flag-eq false false h = refl
same_flag-eq true false h = cc
same_flag-eq false true h = cc

passes_below_ext :
    (p q : ℕ → Bool) (n : ℕ) → ((i : ℕ) → i < n → p i ≡ q i) → passes_below p n ≡ passes_below q n
unfolding passes_below
passes_below_ext p q zero h = refl
passes_below_ext p q (suc n) h =
    rw (h n (omega arith)) (rw (passes_below_ext p q n (λ i l. h i (omega arith))) refl)

or_holds_sound :
    (mask chunk : ℕ)
    → or_holds mask chunk ≡ true
    → (bit_or mask (2 ^ chunk) < 256)
      × ((i : ℕ) → i < 8 → has (bit_or mask (2 ^ chunk)) i ≡ (i == chunk || has mask i))
unfolding or_holds
or_holds_sound mask chunk h = (
  ltb→lt _ _ (&&-first _ _ h),
  λ i l. same_flag-eq _ _ (
      passes_below_at (λ i. same_flag (has (bit_or mask (2 ^ chunk)) i) (i == chunk || has mask i))
        8 (&&-second _ _ h) i l),
)

has-bit_or :
    (mask chunk : ℕ)
    → mask < 256
    → chunk < 8
    → (bit_or mask (2 ^ chunk) < 256)
      × ((i : ℕ) → i < 8 → has (bit_or mask (2 ^ chunk)) i ≡ (i == chunk || has mask i))
has-bit_or mask chunk h k = or_holds_sound mask chunk (
    passes_below_at (or_holds mask) 8
      (passes_below_at (λ m. passes_below (or_holds m) 8) 256 or_table mask h) chunk k)

is_full : (mask : ℕ) → mask < 256 → (mask == 255) ≡ passes_below (has mask) 8
unfolding full_holds
is_full mask h = same_flag-eq _ _ (passes_below_at full_holds 256 full_table mask h)

-- Is the upload taken, and is one of the given number among those taken?
unfoldable pub is_taken : ℕ → List ℕ → Bool
is_taken chunk bytes = not (leb 8 chunk || ltb (length bytes) 32)

unfoldable pub came : List (ℕ × List ℕ) → ℕ → Bool
came [] i = false
came ((chunk, bytes) ∷ us) i = (is_taken chunk bytes && i == chunk) || came us i

or_swap : (a b c : Bool) → (b || (a || c)) ≡ ((a || b) || c)
or_swap a b c = ground arith

or_false : (a : Bool) → (a || false) ≡ a
or_false true = refl
or_false false = refl

has_zero : (i : ℕ) → i < 8 → has 0 i ≡ false
unfolding has
has_zero i h = ground arith

module _ {fl : Floats} where
  -- Uploads one after the other.
  unfoldable pub upload_all : List (ℕ × List ℕ) → Encoder fl → Encoder fl
  upload_all [] e = e
  upload_all ((chunk, bytes) ∷ us) e = upload_all us (set_compensation_chunk chunk bytes e).0

  -- Does the mask record the chunks that the test names?
  abbrev Records : (ℕ → Bool) → Encoder fl → Type 0
  Records p e = (e.chunk_mask < 256) × ((i : ℕ) → i < 8 → has e.chunk_mask i ≡ p i)

  set_compensation_chunk-Records :
      (p : ℕ → Bool) (chunk : ℕ) (bytes : List ℕ) (e : Encoder fl)
      → Records p e
      → Records
          (λ i. (is_taken chunk bytes && i == chunk) || p i)
          (set_compensation_chunk chunk bytes e).0
  unfolding set_compensation_chunk is_taken
  set_compensation_chunk-Records p chunk bytes e (m, h) =
      elim (Bool-cases (leb 8 chunk || ltb (length bytes) 32)) [
        | inl refused ↦ rw refused (m, h)
        | inr taken ↦
            let (n, k) = has-bit_or e.chunk_mask chunk m (ground arith) in
            rw taken (n, λ i l. k i l ∙ ap (λ b. i == chunk || b) (h i l))
      ]

  upload_all-Records :
      (us : List (ℕ × List ℕ)) (p : ℕ → Bool) (e : Encoder fl)
      → Records p e
      → Records (λ i. came us i || p i) (upload_all us e)
  unfolding upload_all came
  upload_all-Records [] p e h = h
  upload_all-Records ((chunk, bytes) ∷ us) p e h =
      let (m, k) = upload_all-Records us _ _ (set_compensation_chunk-Records p chunk bytes e h) in
      (m, λ i l. k i l ∙ or_swap _ (came us i) (p i))

  commit_if :
      (a b : Bool) (e f : Encoder fl)
      → (if◌then◌else◌ {A = Encoder fl × Bool} (a || not b) (e, false) (f, true)).1 ≡ (not a && b)
  commit_if true b e f = refl
  commit_if false true e f = refl
  commit_if false false e f = refl

  -- After the table was cleared and chunks were uploaded, refused ones among them, in any order and
  -- number, the commit succeeds exactly when its scale is not 0 or less and each of the eight chunks
  -- was taken.
  pub commit_complete :
      (us : List (ℕ × List ℕ)) (scale_rad : fl.F) (e : Encoder fl)
      → (commit_compensation scale_rad (upload_all us (clear_compensation e))).1
        ≡ (not (fl.le scale_rad (fl.lit 0 0)) && passes_below (came us) 8)
  unfolding commit_compensation clear_compensation
  commit_complete us scale_rad e =
      let (m, k) =
        upload_all-Records us (λ i. false) (clear_compensation e) (omega arith, has_zero) in
      commit_if _ _ _ _
      ∙ rw (is_full _ m) (
          ap (λ b. not (fl.le scale_rad (fl.lit 0 0)) && b)
            (passes_below_ext _ (came us) 8 (λ i l. k i l ∙ or_false (came us i))))
