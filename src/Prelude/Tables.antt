-- ===== src/Prelude/Tables.antt =====
-- Facts about small numbers, checked value by value.
use Prim.Native.Nat.{ℕ, zero, suc, ◌<◌}
use mathlib.Core.Path.{◌≡◌}
use mathlib.Core.Bool.{Bool, true, ◌&&◌}
use native.Mathlib.Omega.{arith}

-- Does the test pass at each number below the bound?
unfoldable pub passes_below : (ℕ → Bool) → ℕ → Bool
passes_below test zero = true
passes_below test (suc k) = passes_below test k && test k

pub passes_below_at :
    (test : ℕ → Bool) (bound : ℕ)
    → passes_below test bound ≡ true
    → (v : ℕ) → v < bound
    → test v ≡ true
unfolding passes_below
passes_below_at test zero e v h = elim h [ ]
passes_below_at test (suc k) e v h =
    ground (arith, passes_below_at test k, passes_below_at test k (ground arith) v)
