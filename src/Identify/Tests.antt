-- ===== src/Identify/Tests.antt =====
-- The theorems on the identification at concrete sessions.
use spcd_actuator.Prelude.{ℕ, ◌≡◌, refl, ◌≤◌, List, replicate}
use spcd_actuator.Floats.{whole}
use spcd_actuator.Identify.Sweep.{
  Options, start, clamp_points, step, step_if, step_over, take_sample, time_after, at_least,
  is_over, is_near, target, end_point, count_point, go_on, finish, finish_if, quality,
}
use spcd_actuator.Identify.Kinds.{
  CurrentSample, resistance_kind, gather_current, add_current_point, add_average,
}
use spcd_actuator.Identify.Ending.{Ends, points, run, start-Ends}

-- Three points, the least number, of forty steps each.
abbrev options : Options whole
options = record {
  top = 30;
  n_points = 1;
  settle_s = 10;
  sample_s = 30;
  tolerance = 100;
  resistance_ohm = 0;
}

abbrev sample : CurrentSample whole
sample = record { id_A = 10; vd_V = 20 }

abbrev steps : List (ℕ × CurrentSample whole)
steps = replicate 120 (1, sample)

start-Ends_example :
    (3 ≤ clamp_points 1)
    × (clamp_points 1 ≤ 8)
    × Ends
        (resistance_kind whole)
        (points (resistance_kind whole) (start (resistance_kind whole) options).options 0 steps)
        (clamp_points 1)
        (run (resistance_kind whole) steps (start (resistance_kind whole) options))
start-Ends_example = start-Ends (resistance_kind whole) options steps

-- The sweep of these steps is done and finds the resistance.
sweep_finds :
    (run (resistance_kind whole) steps (start (resistance_kind whole) options)).0.result.slope ≡ 2
unfolding run start clamp_points step step_if step_over take_sample time_after at_least is_over
    is_near target end_point count_point go_on finish finish_if quality gather_current
    add_current_point add_average
sweep_finds = refl
