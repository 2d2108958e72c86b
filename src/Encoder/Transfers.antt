-- ===== src/Encoder/Transfers.antt =====
-- The order of the sensor's transfers in whole runs of the encoder service.
use spcd_actuator.Prelude.{◌≡◌, refl, sym, ap, ◌∙◌, Bool, true, false, List, [], ◌∷◌, ℕ}
use spcd_actuator.Floats.{Floats}
use spcd_actuator.Calibration.Encoder.{Angle}
use spcd_actuator.Encoder.Pll
use spcd_actuator.Encoder.Service.{
  SensorCall, sensor_init, sample_now, start_sample, finish_sample, set_filter_us, Answers, Service,
  update_pll_output, update_sample, read_angle_if, sample_blocking, init, init_if, fetch_if, track,
  update_pwm_isr, reset_pll, set_pll_options, recompute, begin_calibration, restore_if,
  restore_calibration, apply_calibration, commit_if, commit_compensation, set_compensation,
}

-- The operations of `EncoderService` after `Init`, but for `SetSensorFilterUs` and those that touch
-- neither the samples nor the sensor.
pub data Operation (fl : Floats) : Type 0 where
  do_sample do_begin do_restore : Answers → Operation fl
  do_isr : fl.F → Answers → Operation fl
  do_reset_pll : Operation fl
  do_set_pll : spcd_actuator.Encoder.Pll.Options fl → Operation fl
  do_apply : Angle fl → Answers → Operation fl
  do_commit : fl.F → Answers → Operation fl
  do_set_compensation : List ℕ → fl.F → Bool → Answers → Operation fl

unfoldable pub operate : (fl : Floats) → Operation fl → Service fl → Service fl
operate fl (do_sample r) s = sample_blocking fl r s
operate fl (do_begin r) s = begin_calibration fl r s
operate fl (do_restore r) s = restore_calibration fl r s
operate fl (do_isr dt_s r) s = update_pwm_isr fl dt_s r s
operate fl do_reset_pll s = reset_pll fl s
operate fl (do_set_pll o) s = set_pll_options fl o s
operate fl (do_apply a r) s = apply_calibration fl a r s
operate fl (do_commit scale r) s = (commit_compensation fl scale r s).0
operate fl (do_set_compensation t scale v r) s = set_compensation fl t scale v r s

unfoldable pub run : (fl : Floats) → List (Operation fl) → Service fl → Service fl
run fl [] s = s
run fl (o ∷ os) s = run fl os (operate fl o s)

-- A transfer was started and nothing has used the bus since.
unfoldable pub is_pending : List SensorCall → Bool
is_pending [] = false
is_pending (start_sample ∷ cs) = true
is_pending (sensor_init ∷ cs) = false
is_pending (sample_now ∷ cs) = false
is_pending (finish_sample ∷ cs) = false
is_pending (set_filter_us n ∷ cs) = false

-- A transfer is finished where one is pending, and started where none is.
pub data IsOrdered : List SensorCall → Type 0 where
  start : IsOrdered []
  other_init : {cs : List SensorCall} → IsOrdered cs → IsOrdered (sensor_init ∷ cs)
  other_sample : {cs : List SensorCall} → IsOrdered cs → IsOrdered (sample_now ∷ cs)
  begins :
      {cs : List SensorCall} → is_pending cs ≡ false → IsOrdered cs → IsOrdered (start_sample ∷ cs)
  ends :
      {cs : List SensorCall} → is_pending cs ≡ true → IsOrdered cs → IsOrdered (finish_sample ∷ cs)

module _ (fl : Floats) where
  -- The transfers are in order, and `spi_pending_` says whether one is pending.
  pub record IsPaired (s : Service fl) : Type 0 where
    pub ordered : IsOrdered s.calls
    pub flag : s.spi_pending ≡ is_pending s.calls

  -- What leaves the transfers.
  abbrev Same : Service fl → Service fl → Type 0
  Same s t = (t.calls ≡ s.calls) × (t.spi_pending ≡ s.spi_pending)

  keep-IsPaired : (s t : Service fl) → Same s t → IsPaired s → IsPaired t
  keep-IsPaired s t (c, p) h = record {
    ordered = rw c h.ordered;
    flag = p ∙ (h.flag ∙ ap is_pending (sym c));
  }

  read_angle_if-IsPaired :
      (b : Bool) (s : Service fl) → IsPaired s → IsPaired (read_angle_if fl b s)
  unfolding read_angle_if update_pll_output
  read_angle_if-IsPaired true s h = keep-IsPaired s _ (refl, refl) h
  read_angle_if-IsPaired false s h = keep-IsPaired s _ (refl, refl) h

  sampled-IsPaired :
      (r : Answers) (s : Service fl) → IsOrdered s.calls → IsPaired (sample_blocking fl r s)
  unfolding sample_blocking update_sample is_pending
  sampled-IsPaired r s h =
      read_angle_if-IsPaired s.pll.theta_valid _ (record { ordered = other_sample h; flag = refl })

  fetch_if-IsPaired :
      (b : Bool) (s : Service fl)
      → s.spi_pending ≡ b
      → IsPaired s
      → IsOrdered (fetch_if fl b s).calls × (is_pending (fetch_if fl b s).calls ≡ false)
  unfolding fetch_if is_pending
  fetch_if-IsPaired true s e h = (ends (sym h.flag ∙ e) h.ordered, refl)
  fetch_if-IsPaired false s e h = (other_sample h.ordered, refl)

  isr-IsPaired :
      (dt_s : fl.F) (r : Answers) (s : Service fl)
      → IsPaired s
      → IsPaired (update_pwm_isr fl dt_s r s)
  unfolding update_pwm_isr update_pll_output track update_sample is_pending
  isr-IsPaired dt_s r s h =
      let f = fetch_if-IsPaired s.spi_pending s refl h in
      record { ordered = begins f.1 f.0; flag = refl }

  restore_if-IsPaired :
      (b : Bool) (r : Answers) (s : Service fl) → IsPaired s → IsPaired (restore_if fl b r s)
  unfolding restore_if recompute reset_pll update_pll_output update_sample
  restore_if-IsPaired true r s h = keep-IsPaired s _ (refl, refl) h
  restore_if-IsPaired false r s h = h

  commit_if-IsPaired :
      (b : Bool) (r : Answers) (s t : Service fl)
      → Same s t
      → IsPaired s
      → IsPaired (commit_if fl b r t).0
  unfolding commit_if update_sample
  commit_if-IsPaired true r s t e h = keep-IsPaired s _ e h
  commit_if-IsPaired false r s t e h = keep-IsPaired s t e h

  operate-IsPaired : (o : Operation fl) (s : Service fl) → IsPaired s → IsPaired (operate fl o s)
  unfolding operate begin_calibration restore_calibration reset_pll set_pll_options
      apply_calibration commit_compensation set_compensation recompute update_pll_output
      update_sample
  operate-IsPaired (do_sample r) s h = sampled-IsPaired r s h.ordered
  operate-IsPaired (do_begin r) s h = keep-IsPaired s _ (refl, refl) h
  operate-IsPaired (do_restore r) s h = restore_if-IsPaired s.kept.backup_valid r s h
  operate-IsPaired (do_isr dt_s r) s h = isr-IsPaired dt_s r s h
  operate-IsPaired do_reset_pll s h = keep-IsPaired s _ (refl, refl) h
  operate-IsPaired (do_set_pll o) s h = keep-IsPaired s _ (refl, refl) h
  operate-IsPaired (do_apply a r) s h = keep-IsPaired s _ (refl, refl) h
  operate-IsPaired (do_commit scale r) s h = commit_if-IsPaired _ r s _ (refl, refl) h
  operate-IsPaired (do_set_compensation t scale v r) s h = keep-IsPaired s _ (refl, refl) h

  run_keeps : (os : List (Operation fl)) (s : Service fl) → IsPaired s → IsPaired (run fl os s)
  unfolding run
  run_keeps [] s h = h
  run_keeps (o ∷ os) s h = run_keeps os (operate fl o s) (operate-IsPaired o s h)

  init_if-IsPaired :
      (b : Bool) (r : Answers) (s : Service fl) → IsPaired s → IsPaired (init_if fl b r s).0
  unfolding init_if
  init_if-IsPaired true r s h = sampled-IsPaired r s h.ordered
  init_if-IsPaired false r s h = h

  -- From `Init` on, where `SetSensorFilterUs` is not called, every run of the encoder service finishes
  -- a transfer only where one was started and nothing has used the bus since, starts none while one is
  -- pending, and its flag says whether one is.
  pub run-IsPaired :
      (r : Answers) (os : List (Operation fl)) (s : Service fl)
      → s.calls ≡ []
      → s.spi_pending ≡ false
      → IsPaired (run fl os (init fl r s).0)
  unfolding init is_pending
  run-IsPaired r os s empty idle = run_keeps os _ (
      init_if-IsPaired r.init_ok r _
        (record { ordered = other_init (rw empty start); flag = idle }))
