-- ===== src/Core/Pool/Tests.antt =====
-- A pool of 64 bytes in the RAM of the target.
use spcd_actuator.Prelude.{List, [], ◌∷◌, ℕ, ◌+◌, arith, inr, refl}
use spcd_actuator.Core.Pool.{Pool}
use spcd_actuator.Core.Pool.Runs.{run, IsLaidIf, AllPowers, run-IsLaid}

abbrev pool : Pool
pool = record { base = 536870912; size = 64; position = 1 }

abbrev requests : List (ℕ × ℕ)
requests = (12, 4) ∷ (3, 1) ∷ (8, 8) ∷ []

run-IsLaid_example : IsLaidIf (536870912 + 1) (536870912 + 64) (run requests pool)
unfolding AllPowers
run-IsLaid_example = run-IsLaid 8 requests pool (omega arith) (omega arith) (
  omega arith,
  inr (record { exponent = 2; power = refl }),
  (
    omega arith,
    inr (record { exponent = 0; power = refl }),
    (omega arith, inr (record { exponent = 3; power = refl }), tt),
  ),
)
