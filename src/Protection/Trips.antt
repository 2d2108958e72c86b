-- ===== src/Protection/Trips.antt =====
-- When the monitor trips, and when it may not.
use spcd_actuator.Prelude.{
  suc, ◌+◌, ◌<◌, ◌≤◌, ◌≡◌, ◌≢◌, ◌↔◌, ◌⊎◌, true, false, ◌&&◌, List, [], ◌∷◌, arith, length, u8,
}
use spcd_actuator.Floats.{Floats}
use spcd_actuator.Protection.Monitor.{
  nothing, peak_overcurrent, Config, Input, Monitor, is_over, energy_after, check_fet, check_bus,
  check_i2t, evaluate, has_i2t, energy_limit,
}

module _ (fl : Floats) (c : Config fl) where
  -- The measured values are inside the limits.
  abbrev pub IsInside : Input fl → Type 0
  IsInside x =
      (x.current_ok ≡ true)
      × ((x.bus_ok && fl.lt x.bus_V c.bus_min_V) ≡ false)
      × ((x.bus_ok && fl.lt c.bus_max_V x.bus_V) ≡ false)
      × ((x.fet_ok && fl.lt c.fet_fault_C x.fet_temp_C) ≡ false)

  check_bus_lem :
      (x : Input fl) (m : Monitor fl)
      → (check_bus fl c x m).last_trip ≡ nothing
      → ((x.bus_ok && fl.lt x.bus_V c.bus_min_V) ≡ false)
        × ((x.bus_ok && fl.lt c.bus_max_V x.bus_V) ≡ false)
        × ((x.fet_ok && fl.lt c.fet_fault_C x.fet_temp_C) ≡ false)
  unfolding check_bus check_fet
  check_bus_lem x m h = ground arith

  -- The later tests keep the count.
  check_i2t-overcurrent_count :
      (x : Input fl) (m : Monitor fl) → (check_i2t fl c x m).overcurrent_count ≡ m.overcurrent_count
  unfolding check_i2t check_bus check_fet
  check_i2t-overcurrent_count x m = ground arith

  check_i2t-ne : (x : Input fl) (m : Monitor fl) → (check_i2t fl c x m).last_trip ≢ peak_overcurrent
  unfolding check_i2t check_bus check_fet
  check_i2t-ne x m = ground arith

  check_bus-energy :
      (x : Input fl) (m : Monitor fl) → (check_bus fl c x m).i2t_energy_A2s ≡ m.i2t_energy_A2s
  unfolding check_bus check_fet
  check_bus-energy x m = ground arith

  check_i2t_lem :
      (x : Input fl) (m : Monitor fl)
      → (check_i2t fl c x m).last_trip ≡ nothing
      → ((x.bus_ok && fl.lt x.bus_V c.bus_min_V) ≡ false)
        × ((x.bus_ok && fl.lt c.bus_max_V x.bus_V) ≡ false)
        × ((x.fet_ok && fl.lt c.fet_fault_C x.fet_temp_C) ≡ false)
        × ((has_i2t fl c x && fl.lt (energy_limit fl c) (check_i2t fl c x m).i2t_energy_A2s)
            ≡ false)
  unfolding check_i2t
  check_i2t_lem x m h = ground (
    arith,
    check_bus_lem x m,
    check_bus-energy x m,
    check_bus-energy x (record m { i2t_energy_A2s = energy_after fl c x m.i2t_energy_A2s }),
    check_bus_lem x (record m { i2t_energy_A2s = energy_after fl c x m.i2t_energy_A2s }),
  )

  -- Where an evaluation reports no trip: the currents are measured; a known bus voltage is neither
  -- below its least nor above its greatest value, and a known temperature not above its greatest one;
  -- the current is not over its limit, or it is over it and the count of such samples in a row is
  -- below the configured number; and where the I2t test applies, the energy that the evaluation
  -- leaves is not above the energy limit. A float that is not a number is neither below nor above.
  pub evaluate-IsInside :
      (x : Input fl) (m : Monitor fl)
      → (evaluate fl c x m).last_trip ≡ nothing
      → IsInside x
        × ((is_over fl c x ≡ false) ⊎ ((evaluate fl c x m).overcurrent_count < c.overcurrent_count))
        × ((has_i2t fl c x && fl.lt (energy_limit fl c) (evaluate fl c x m).i2t_energy_A2s) ≡ false)
  unfolding evaluate
  evaluate-IsInside x m h = ground (
    arith,
    check_i2t_lem x (record m { overcurrent_count = 0 }),
    check_i2t_lem x (record m { overcurrent_count = u8 (m.overcurrent_count + 1) }),
    check_i2t-overcurrent_count x (record m { overcurrent_count = u8 (m.overcurrent_count + 1) }),
  )

  -- Evaluations one after the other.
  abbrev pub evaluate_all : List (Input fl) → Monitor fl → Monitor fl
  evaluate_all [] m = m
  evaluate_all (x ∷ xs) m = evaluate_all xs (evaluate fl c x m)

  abbrev pub AllOver : List (Input fl) → Type 0
  AllOver [] = Unit {0}
  AllOver (x ∷ xs) = (x.current_ok ≡ true) × (is_over fl c x ≡ true) × AllOver xs

  pub evaluate_over :
      (x : Input fl) (m : Monitor fl)
      → x.current_ok ≡ true
      → is_over fl c x ≡ true
      → m.overcurrent_count < 255
      → ((evaluate fl c x m).overcurrent_count ≡ suc m.overcurrent_count)
        × (((evaluate fl c x m).last_trip ≡ peak_overcurrent)
            ↔ (c.overcurrent_count ≤ suc m.overcurrent_count))
  unfolding evaluate
  evaluate_over x m ok over h = ground (
    arith,
    check_i2t-overcurrent_count x (record m { overcurrent_count = u8 (m.overcurrent_count + 1) }),
    check_i2t-ne x (record m { overcurrent_count = u8 (m.overcurrent_count + 1) }),
  )

  -- After samples in a row that are all over the limit, fewer than 256 with the count before them, the
  -- monitor reports the overcurrent exactly when the count has reached the configured number.
  pub overcurrent_trips :
      (x : Input fl) (xs : List (Input fl)) (m : Monitor fl)
      → AllOver (x ∷ xs)
      → m.overcurrent_count + length (x ∷ xs) < 256
      → ((evaluate_all (x ∷ xs) m).last_trip ≡ peak_overcurrent)
        ↔ (c.overcurrent_count ≤ m.overcurrent_count + length (x ∷ xs))
  overcurrent_trips x [] m (ok, over, _) h = ground (arith, evaluate_over x m ok over (omega arith))
  overcurrent_trips x (y ∷ ys) m (ok, over, rest) h = ground (
    arith,
    evaluate_over x m ok over (omega arith),
    overcurrent_trips y ys (evaluate fl c x m) rest,
  )

  -- A single sample that is not over the limit starts the count again, whatever was counted.
  pub evaluate_restarts :
      (x : Input fl) (m : Monitor fl)
      → x.current_ok ≡ true
      → is_over fl c x ≡ false
      → ((evaluate fl c x m).overcurrent_count ≡ 0)
        × ((evaluate fl c x m).last_trip ≢ peak_overcurrent)
  unfolding evaluate
  evaluate_restarts x m ok under = ground (
    arith,
    check_i2t-overcurrent_count x (record m { overcurrent_count = 0 }),
    check_i2t-ne x (record m { overcurrent_count = 0 }),
  )
