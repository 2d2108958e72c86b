-- ===== src/Snapshot/Capture.antt =====
-- What a capture stores: every `decimate`-th row, until the target is reached.
use spcd_actuator.Prelude.{
  ℕ, zero, suc, ◌+◌, ◌-◌, ◌*◌, ◌≤◌, ◌<◌, true, false, List, [], ◌∷◌, ◌++◌, ◌≡◌, refl, sym, ap,
  arith, length, set, take, ltb, if◌then◌else◌, u16, ◌==◌, length-set, Bool-cases, inl, inr,
}
use native.Mathlib.Nat.{add-zero}
use native.Mathlib.Numerals.{add-one}
use mathlib.Core.List.{append_assoc, append-nil}
use spcd_actuator.Snapshot.{
  State, idle, capturing, ready, Service, push_row, write_row, channel_count, arm, max_samples,
}
use spcd_actuator.Snapshot.Invariant.{IsValid, push_row-IsValid, arm-IsValid}

take-set_self :
    (xs : List ℕ) (i w : ℕ) → i < length xs → take (suc i) (set xs i w) ≡ take i xs ++ (w ∷ [])
take-set_self [] i w h = absurd (omega arith)
take-set_self (x ∷ xs) zero w h = refl
take-set_self (x ∷ xs) (suc i) w h = ap (λ t. x ∷ t) (take-set_self xs i w (omega arith))

take-write_row :
    (row : List ℕ) (base : ℕ) (xs : List ℕ)
    → base + length row ≤ length xs
    → take (base + length row) (write_row base row xs) ≡ take base xs ++ row
take-write_row [] base xs h = rw (append-nil, add-zero)
take-write_row (w ∷ ws) base xs h =
    rw (shift, take-write_row ws (base + 1) (set xs base w) (omega (arith, length-set xs base w)))
      (rw (add-one, take-set_self xs base w (omega arith), append_assoc))
  where
    shift : base + suc (length ws) ≡ base + 1 + length ws
    shift = omega arith

-- The words captured so far.
abbrev pub captured : Service → List ℕ
captured s = take (s.count * channel_count) s.samples

-- A call of the interrupt on a capture that is running stores the row behind the words captured so
-- far, or only counts, as the decimation says; it never writes outside the array.
pub captured-push_row :
    (row : List ℕ) (dt : ℕ) (s : Service)
    → IsValid s
    → s.state ≡ capturing
    → length row ≡ channel_count
    → captured (push_row row dt s.state s)
      ≡ (if ltb (s.decimation_count + 1) s.decimate then captured s else captured s ++ row)
unfolding push_row
captured-push_row row dt s v e h =
    ground
      (arith, stored, ap (λ n. take n (write_row (s.count * channel_count) row s.samples)) next)
  where
    next : u16 (s.count + 1) * channel_count ≡ s.count * channel_count + length row
    next = omega arith

    stored :
        take
          (s.count * channel_count + length row)
          (write_row (s.count * channel_count) row s.samples)
        ≡ captured s ++ row
    stored = take-write_row row (s.count * channel_count) s.samples (omega arith)

abbrev pub AreRows : List (List ℕ) → Type 0
AreRows [] = Unit {0}
AreRows (row ∷ rows) = (length row ≡ channel_count) × AreRows rows

-- Rows given to the interrupt, one call for each.
unfoldable pub push_rows : ℕ → List (List ℕ) → Service → Service
push_rows dt [] s = s
push_rows dt (row ∷ rows) s = push_rows dt rows (push_row row dt s.state s)

-- The specification: every `d`-th row of a stream, with `c` rows skipped so far, `left` at most,
-- one behind the other.
unfoldable pub every : ℕ → ℕ → ℕ → List (List ℕ) → List ℕ
every zero d c rows = []
every (suc left) d c [] = []
every (suc left) d c (row ∷ rows) = elim (ltb (c + 1) d) [
  | true ↦ every (suc left) d (c + 1) rows
  | false ↦ row ++ every left d 0 rows
]

push_row_ready :
    (row : List ℕ) (dt : ℕ) (s : Service) → s.state ≡ ready → push_row row dt s.state s ≡ s
unfolding push_row
push_row_ready row dt s e = ground arith

push_rows_ready :
    (dt : ℕ) (rows : List (List ℕ)) (s : Service) → s.state ≡ ready → push_rows dt rows s ≡ s
unfolding push_rows
push_rows_ready dt [] s e = refl
push_rows_ready dt (row ∷ rows) s e = rw (push_row_ready row dt s e) (push_rows_ready dt rows s e)

push_row_skip :
    (row : List ℕ) (dt : ℕ) (s : Service)
    → IsValid s
    → s.state ≡ capturing
    → ltb (s.decimation_count + 1) s.decimate ≡ true
    → push_row row dt s.state s ≡ record s { decimation_count = s.decimation_count + 1 }
unfolding push_row
push_row_skip row dt s v e h = ground arith

-- The state of a capture that has room for `left` more rows.
abbrev state_for : ℕ → State
state_for zero = ready
state_for (suc left) = capturing

-- The counters and the state after a stored row.
push_row_store :
    (row : List ℕ) (dt : ℕ) (s : Service) (left : ℕ)
    → IsValid s
    → s.state ≡ capturing
    → s.target ≡ s.count + suc left
    → ltb (s.decimation_count + 1) s.decimate ≡ false
    → let t = push_row row dt s.state s in
      (t.count ≡ s.count + 1)
      × (t.target ≡ s.target)
      × (t.decimate ≡ s.decimate)
      × (t.decimation_count ≡ 0)
      × (t.state ≡ state_for left)
unfolding push_row
push_row_store row dt s zero v e k h = ground arith
push_row_store row dt s (suc left) v e k h = ground arith

skip-IsValid :
    (s : Service)
    → IsValid s
    → ltb (s.decimation_count + 1) s.decimate ≡ true
    → IsValid (record s { decimation_count = s.decimation_count + 1 })
skip-IsValid s v h = ground arith

every-zero : (d c : ℕ) (rows : List (List ℕ)) → every zero d c rows ≡ []
unfolding every
every-zero d c rows = refl

every-nil : (left d c : ℕ) → every (suc left) d c [] ≡ []
unfolding every
every-nil left d c = refl

every-cons :
    (left d c : ℕ) (row : List ℕ) (rows : List (List ℕ))
    → every (suc left) d c (row ∷ rows)
      ≡ (if ltb (c + 1) d then every (suc left) d (c + 1) rows else row ++ every left d 0 rows)
unfolding every
every-cons left d c row rows = ground arith

captured-push_rows_left :
    (rows : List (List ℕ)) (left dt : ℕ) (s : Service)
    → IsValid s
    → s.state ≡ state_for left
    → s.target ≡ s.count + left
    → AreRows rows
    → captured (push_rows dt rows s) ≡ captured s ++ every left s.decimate s.decimation_count rows
unfolding push_rows
captured-push_rows_left rows zero dt s v e k h =
    rw (push_rows_ready dt rows s e, every-zero s.decimate s.decimation_count rows)
      (sym (append-nil (captured s)))
captured-push_rows_left [] (suc left) dt s v e k h =
    rw (every-nil left s.decimate s.decimation_count) (sym (append-nil (captured s)))
captured-push_rows_left (row ∷ rows) (suc left) dt s v e k h =
    elim (Bool-cases (ltb (s.decimation_count + 1) s.decimate)) [
      | inl skip ↦ skipped skip (
          captured-push_rows_left rows (suc left) dt
            (record s { decimation_count = s.decimation_count + 1 }) (skip-IsValid s v skip) e k
            h.1)
      | inr store ↦ stored store (push_row_store row dt s left v e k store) (
          captured-push_rows_left rows left dt (push_row row dt s.state s)
            (push_row-IsValid row dt s.state s refl v))
    ]
  where
    t : Service
    t = push_row row dt s.state s

    skipped :
        ltb (s.decimation_count + 1) s.decimate ≡ true
        → captured (push_rows dt rows (record s { decimation_count = s.decimation_count + 1 }))
          ≡ captured s ++ every (suc left) s.decimate (s.decimation_count + 1) rows
        → captured (push_rows dt rows t)
          ≡ captured s ++ every (suc left) s.decimate s.decimation_count (row ∷ rows)
    skipped skip ih = ground (
      arith,
      push_row_skip row dt s v e skip,
      every-cons left s.decimate s.decimation_count row rows,
    )

    stored :
        ltb (s.decimation_count + 1) s.decimate ≡ false
        → (t.count ≡ s.count + 1)
          × (t.target ≡ s.target)
          × (t.decimate ≡ s.decimate)
          × (t.decimation_count ≡ 0)
          × (t.state ≡ state_for left)
        → (t.state ≡ state_for left
            → t.target ≡ t.count + left
            → AreRows rows
            → captured (push_rows dt rows t)
              ≡ captured t ++ every left t.decimate t.decimation_count rows)
        → captured (push_rows dt rows t)
          ≡ captured s ++ every (suc left) s.decimate s.decimation_count (row ∷ rows)
    stored store q ih = ground (
      arith,
      ih q.4 (omega arith) h.1,
      captured-push_row row dt s v e h.0,
      every-cons left s.decimate s.decimation_count row rows,
      append_assoc (captured s) row (every left s.decimate 0 rows),
    )

-- A capture that is running stores, behind the words that it has, every `decimate`-th row of those
-- that the interrupt brings, counted from the rows skipped so far, as many as its target has room
-- for, in order; further rows change nothing.
pub captured-push_rows :
    (dt : ℕ) (rows : List (List ℕ)) (s : Service)
    → IsValid s
    → s.state ≡ capturing
    → AreRows rows
    → captured (push_rows dt rows s)
      ≡ captured s ++ every (s.target - s.count) s.decimate s.decimation_count rows
captured-push_rows dt rows s v e h =
    captured-push_rows_left rows (s.target - s.count) dt s v (ground arith) (omega arith) h

arm_lem :
    (sequence n decimate hz : ℕ) (s : Service)
    → s.state ≡ idle
    → let t = (arm sequence n decimate hz s).0 in
      (t.state ≡ capturing)
      × (t.count ≡ 0)
      × (t.decimation_count ≡ 0)
      × (t.target ≡ (if n == 0 then max_samples else if ltb max_samples n then max_samples else n))
      × (t.decimate ≡ (if decimate == 0 then 1 else decimate))
unfolding arm
arm_lem sequence n decimate hz s e = ground arith

-- What `Arm` starts on an idle service: the captured words are every row that the decimation keeps
-- (all of them at 0 or 1), up to the wanted number of rows, where 0 and more than 512 stand for 512.
pub captured-arm :
    (dt sequence n decimate hz : ℕ) (rows : List (List ℕ)) (s : Service)
    → IsValid s
    → s.state ≡ idle
    → decimate < 256
    → AreRows rows
    → captured (push_rows dt rows (arm sequence n decimate hz s).0)
      ≡ every
          (if n == 0 then max_samples else if ltb max_samples n then max_samples else n)
          (if decimate == 0 then 1 else decimate)
          0
          rows
captured-arm dt sequence n decimate hz rows s v e d h = ground (
  arith,
  arm_lem sequence n decimate hz s e,
  captured-push_rows dt rows (arm sequence n decimate hz s).0
      (arm-IsValid sequence n decimate hz d v),
)
