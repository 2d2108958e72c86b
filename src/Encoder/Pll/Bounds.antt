-- ===== src/Encoder/Pll/Bounds.antt =====
-- The PLL within its velocity, and its count of spikes.
use spcd_actuator.Prelude.{
  ℕ, ◌≡◌, ◌+◌, ◌≤◌, Bool, true, false, if◌then◌else◌, ltb, List, [], ◌∷◌, if_cases, arith,
}
use spcd_actuator.Floats.{Floats}
use spcd_actuator.Control.Bounds.{IsNotOutside}
use spcd_actuator.Encoder.Pll.{
  Options, Pll, set_options, recompute_gains, reset, limit_vel, note_spike_if, clear_spike_count,
  max_vel, advance, update_if, update, least_dt,
}

-- The operations of `EncoderPll`.
pub data Operation (fl : Floats) : Type 0 where
  do_set_options : Options fl → Operation fl
  do_reset : fl.F → fl.F → Operation fl
  do_update : fl.F → fl.F → fl.F → Operation fl
  do_clear : Operation fl

unfoldable pub operate : (fl : Floats) → Operation fl → Pll fl → Pll fl
operate fl (do_set_options o) p = set_options fl o p
operate fl (do_reset theta correction) p = reset fl theta correction p
operate fl (do_update theta dt_s correction) p = update fl theta dt_s correction p
operate fl do_clear p = clear_spike_count fl p

unfoldable pub run : (fl : Floats) → List (Operation fl) → Pll fl → Pll fl
run fl [] p = p
run fl (o ∷ os) p = run fl os (operate fl o p)

-- The count is a 32-bit word.
count_up : (n : ℕ) → n ≤ 4294967295 → (if ltb n 4294967295 then n + 1 else n) ≤ 4294967295
count_up n h = ground arith

module _ (fl : Floats) where
  note_spike_if-count :
      (b : Bool) (e v : fl.F) (p : Pll fl)
      → p.spike_count ≤ 4294967295
      → (note_spike_if fl b e v p).spike_count ≤ 4294967295
  unfolding note_spike_if
  note_spike_if-count true e v p h = count_up p.spike_count h
  note_spike_if-count false e v p h = h

  update_if-count :
      (b : Bool) (m dt_s c : fl.F) (p : Pll fl)
      → p.spike_count ≤ 4294967295
      → (update_if fl b m dt_s c p).spike_count ≤ 4294967295
  unfolding update_if reset advance
  update_if-count true m dt_s c p h = note_spike_if-count _ _ _ p h
  update_if-count false m dt_s c p h = h

  operate-count :
      (o : Operation fl) (p : Pll fl)
      → p.spike_count ≤ 4294967295
      → (operate fl o p).spike_count ≤ 4294967295
  unfolding operate set_options recompute_gains reset update clear_spike_count
  operate-count (do_set_options o) p h = h
  operate-count (do_reset theta c) p h = h
  operate-count (do_update theta dt_s c) p h = update_if-count _ _ _ c p h
  operate-count do_clear p h = omega arith

  -- The count of spikes stays a 32-bit word without a wrap-around in every run of the PLL.
  pub run-count :
      (os : List (Operation fl)) (p : Pll fl)
      → p.spike_count ≤ 4294967295
      → (run fl os p).spike_count ≤ 4294967295
  unfolding run
  run-count [] p h = h
  run-count (o ∷ os) p h = run-count os (operate fl o p) (operate-count o p h)

module _ (fl : Floats) (irreflexive : (x : fl.F) → fl.lt x x ≡ false) where
  limit_vel-IsNotOutside :
      (v top : fl.F)
      → fl.lt top (fl.neg top) ≡ false
      → IsNotOutside fl (fl.neg top) top (limit_vel fl v top)
  unfolding limit_vel
  limit_vel-IsNotOutside v top h =
      if_cases (IsNotOutside fl (fl.neg top) top) (fl.lt top v) top
        (if fl.lt v (fl.neg top) then fl.neg top else v) (λ e. (h, irreflexive top))
        (λ high.
          if_cases (IsNotOutside fl (fl.neg top) top) (fl.lt v (fl.neg top)) (fl.neg top) v
            (λ e. (irreflexive (fl.neg top), h)) (λ low. (low, high)))

  -- After an update of a PLL that has a sample, its integral and its velocity are neither below nor
  -- above the greatest velocity of both signs at that time step, where that is not negative. A float
  -- that is not a number is neither.
  pub update-IsNotOutside :
      (theta dt_s correction : fl.F) (p : Pll fl)
      → p.have_sample ≡ true
      → fl.lt
          (max_vel fl p.options (least_dt fl dt_s))
          (fl.neg (max_vel fl p.options (least_dt fl dt_s)))
        ≡ false
      → IsNotOutside fl
          (fl.neg (max_vel fl p.options (least_dt fl dt_s)))
          (max_vel fl p.options (least_dt fl dt_s))
          (update fl theta dt_s correction p).velocity
        × IsNotOutside fl
            (fl.neg (max_vel fl p.options (least_dt fl dt_s)))
            (max_vel fl p.options (least_dt fl dt_s))
            (update fl theta dt_s correction p).integral
  unfolding update update_if advance
  update-IsNotOutside theta dt_s correction p h top =
      rw h (limit_vel-IsNotOutside _ _ top, limit_vel-IsNotOutside _ _ top)
