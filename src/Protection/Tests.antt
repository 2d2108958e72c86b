-- ===== src/Protection/Tests.antt =====
-- The theorems on the safety monitor at concrete samples.
use spcd_actuator.Prelude.{◌+◌, ◌≤◌, ◌<◌, ◌≡◌, ◌↔◌, ◌⊎◌, true, false, ◌&&◌, [], ◌∷◌, refl, arith}
use spcd_actuator.Floats.{whole}
use spcd_actuator.Protection.Monitor.{
  nothing, peak_overcurrent, Config, Input, Monitor, is_over, largest, magnitude, evaluate,
  check_i2t, check_bus, check_fet, has_i2t, energy_after, energy_limit,
}
use spcd_actuator.Protection.Trips.{IsInside, evaluate_all, evaluate-IsInside, overcurrent_trips}

abbrev limits : Config whole
limits = record {
  overcurrent_A = 20;
  overcurrent_count = 3;
  i2t_rated_A = 10;
  i2t_tau_s = 2;
  bus_min_V = 8;
  bus_max_V = 54;
  fet_fault_C = 100;
}

abbrev high : Input whole
high = record {
  current_ok = true;
  i1_A = 5;
  i2_A = 25;
  i3_A = 0;
  bus_ok = true;
  bus_V = 24;
  fet_ok = false;
  fet_temp_C = 0;
  dt_s = 0;
}

abbrev low : Input whole
low = record high { i2_A = 15 }

abbrev fresh : Monitor whole
fresh = record { overcurrent_count = 0; i2t_energy_A2s = 0; last_trip = nothing }

overcurrent_trips_example :
    ((evaluate_all whole limits (high ∷ high ∷ high ∷ []) fresh).last_trip ≡ peak_overcurrent)
    ↔ (3 ≤ 0 + 3)
unfolding is_over largest magnitude
overcurrent_trips_example =
    overcurrent_trips whole limits high (high ∷ high ∷ []) fresh
      (refl, refl, (refl, refl, (refl, refl, omega arith))) (omega arith)

evaluate-IsInside_example :
    IsInside whole limits low
    × ((is_over whole limits low ≡ false)
        ⊎ ((evaluate whole limits low fresh).overcurrent_count < limits.overcurrent_count))
    × ((has_i2t whole limits low
          && whole.lt (energy_limit whole limits) (evaluate whole limits low fresh).i2t_energy_A2s)
        ≡ false)
unfolding evaluate is_over largest magnitude check_i2t check_bus check_fet has_i2t energy_after
    energy_limit
evaluate-IsInside_example = evaluate-IsInside whole limits low fresh refl
