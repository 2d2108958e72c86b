-- ===== src/Core/Pool/Runs.antt =====
-- The blocks of a run of allocations: in order, aligned, within the pool and apart.
use spcd_actuator.Prelude.{
  ℕ, ◌+◌, ◌%◌, ◌≤◌, ◌<◌, ◌≡◌, ◌⊎◌, inl, inr, refl, ◌∙◌, ◌==◌, if◌then◌else◌, Option, none, some,
  List, [], ◌∷◌, arith,
}
use mathlib.Core.Path.{subst}
use spcd_actuator.Core.Pool.{Pool, allocate}
use spcd_actuator.Core.Pool.Layout.{IsBlock, IsPower, power_positive, aligned-IsBlock}

-- A block: its address, its size and its alignment.
pub record Block : Type 0 where
  pub address : ℕ
  pub size : ℕ
  pub alignment : ℕ

abbrev pub alignment_of : ℕ → ℕ
alignment_of a = if a == 0 then 1 else a

unfoldable pub cons_block : Block → Option (List Block) → Option (List Block)
cons_block b none = none
cons_block b (some bs) = some (b ∷ bs)

-- The blocks of allocations by size and alignment, `none` where one of them halts.
unfoldable pub run : List (ℕ × ℕ) → Pool → Option (List Block)
run [] p = some []
run ((n, a) ∷ rs) p = elim (allocate n a p) [
  | none ↦ none
  | some (q, x) ↦
      cons_block (record { address = x; size = n; alignment = alignment_of a }) (run rs q)
]

-- Every block starts at or after the end of the one before, is aligned, and ends within the pool.
unfoldable pub IsLaid : ℕ → ℕ → List Block → Type 0
IsLaid low top [] = Unit
IsLaid low top (b ∷ bs) =
    (low ≤ b.address)
    × (b.address % b.alignment ≡ 0)
    × (b.address + b.size ≤ top)
    × IsLaid (b.address + b.size) top bs

unfoldable pub IsLaidIf : ℕ → ℕ → Option (List Block) → Type 0
IsLaidIf low top none = Unit
IsLaidIf low top (some bs) = IsLaid low top bs

-- Every alignment is 0, which stands for 1, or a power of two, and none is above the greatest one.
unfoldable pub AllPowers : ℕ → List (ℕ × ℕ) → Type 0
AllPowers top [] = Unit
AllPowers top ((n, a) ∷ rs) = (a ≤ top) × ((a ≡ 0) ⊎ IsPower a) × AllPowers top rs

alignment_of-IsPower : (a : ℕ) → (a ≡ 0) ⊎ IsPower a → IsPower (alignment_of a)
alignment_of-IsPower a (inl e) = record { exponent = 0; power = ground arith }
alignment_of-IsPower a (inr p) =
    let e = p.power in
    let z = power_positive p.exponent in record { exponent = p.exponent; power = ground arith }

small_alignment : (a top : ℕ) → a ≤ top → alignment_of a ≤ top + 1
small_alignment a top h = ground arith

allocate-IsBlock :
    (n a top : ℕ) (p : Pool)
    → p.position ≤ p.size
    → a ≤ top
    → (a ≡ 0) ⊎ IsPower a
    → p.base + p.size + (top + 1) < 4294967296
    → IsBlock n (alignment_of a) p (allocate n a p)
unfolding allocate
allocate-IsBlock n a top p whole h k room =
    aligned-IsBlock p n (alignment_of a) whole (omega (arith, small_alignment a top h))
      (alignment_of-IsPower a k)

cons-IsLaidIf :
    (low top : ℕ) (b : Block) (bs : Option (List Block))
    → low ≤ b.address
    → b.address % b.alignment ≡ 0
    → b.address + b.size ≤ top
    → IsLaidIf (b.address + b.size) top bs
    → IsLaidIf low top (cons_block b bs)
unfolding cons_block IsLaidIf IsLaid
cons-IsLaidIf low top b none l m u h = tt
cons-IsLaidIf low top b (some bs) l m u h = (l, m, u, h)

after-IsLaidIf :
    (n a : ℕ) (rs : List (ℕ × ℕ)) (p : Pool) (o : Option (Pool × ℕ))
    → IsBlock n (alignment_of a) p o
    → ((q : Pool)
        → q.base ≡ p.base
        → q.size ≡ p.size
        → q.base + q.position ≤ p.base + p.size
        → IsLaidIf (q.base + q.position) (p.base + p.size) (run rs q))
    → IsLaidIf (p.base + p.position) (p.base + p.size) (elim o [
      | none ↦ none
      | some (q, x) ↦
          cons_block (record { address = x; size = n; alignment = alignment_of a }) (run rs q)
    ])
unfolding IsBlock IsLaidIf
after-IsLaidIf n a rs p none h next = tt
after-IsLaidIf n a rs p (some (q, x)) (l, m, u, b, s, e) next =
    cons-IsLaidIf _ _ _ (run rs q) l m u
      (subst (λ end. IsLaidIf end (p.base + p.size) (run rs q)) e (next q b s (omega arith)))

run_from :
    (top base size : ℕ) (rs : List (ℕ × ℕ)) (p : Pool)
    → p.base ≡ base
    → p.size ≡ size
    → p.position ≤ p.size
    → base + size + (top + 1) < 4294967296
    → AllPowers top rs
    → IsLaidIf (p.base + p.position) (base + size) (run rs p)
unfolding run IsLaidIf IsLaid AllPowers
run_from top base size [] p b s whole room up = tt
run_from top base size ((n, a) ∷ rs) p b s whole room (h, k, up) =
    subst (λ end. IsLaidIf (p.base + p.position) end (run ((n, a) ∷ rs) p)) (omega arith)
      (after-IsLaidIf n a rs p (allocate n a p) (allocate-IsBlock n a top p whole h k (omega arith))
        (λ q qb qs e.
          subst (λ end. IsLaidIf (q.base + q.position) end (run rs q)) (omega arith)
            (run_from top base size rs q (qb ∙ b) (qs ∙ s) (omega arith) room up)))

-- From a pool that is not overfull and ends below the top of the address space by more than the
-- greatest alignment, a run of allocations with powers of two (or 0, which stands for 1) for alignments
-- that does not halt gives blocks that are aligned, lie within
-- the pool after what was taken, and each start at or after the end of the one before.
pub run-IsLaid :
    (top : ℕ) (rs : List (ℕ × ℕ)) (p : Pool)
    → p.position ≤ p.size
    → p.base + p.size + (top + 1) < 4294967296
    → AllPowers top rs
    → IsLaidIf (p.base + p.position) (p.base + p.size) (run rs p)
run-IsLaid top rs p whole room up = run_from top p.base p.size rs p refl refl whole room up
