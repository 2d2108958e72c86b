-- ===== src/Encoder/Service.antt =====
-- encoder_service.h: the samples, the PLL behind them, and the transfers of the sensor. What the sensor
-- answers in one operation is the record `Answers`, and the calls on it are a history, newest first.
-- The calibration and its tables are the encoder of Calibration.
use spcd_actuator.Prelude.{ℕ, Bool, true, false, if◌then◌else◌, ltb, u16, List, ◌∷◌}
use spcd_actuator.Floats.{Floats}
use spcd_actuator.Motor.Start.{two_pi, wrap_zero_to_two_pi}
use spcd_actuator.Calibration.Encoder
use spcd_actuator.Calibration.Encoder.{Angle, Encoder}
use spcd_actuator.Encoder.Pll.{Pll, Options, update, reset, omega_elec}
use spcd_actuator.Encoder.Pll
use spcd_actuator.Encoder.Tables.{
  interpolate_commutation, interpolate_encoder_comp, interpolate_cogging,
}

-- `EncoderService::Sample`
pub record Sample (fl : Floats) : Type 0 where
  pub raw : ℕ
  pub counts_rad : fl.F
  pub mechanical_rad : fl.F
  pub compensated_mechanical_rad : fl.F
  pub electrical_rad : fl.F
  pub mechanical_velocity_rad_s : fl.F
  pub electrical_velocity_rad_s : fl.F
  pub valid : Bool

-- The calls of `ports::IAngleSensor` that reach the bus.
pub data SensorCall : Type 0 where
  sensor_init sample_now start_sample finish_sample : SensorCall
  set_filter_us : ℕ → SensorCall

-- What the sensor answers: `Init` and `SetFilterUs`, `raw`, `counts_per_turn` and `ok`.
pub record Answers : Type 0 where
  pub init_ok : Bool
  pub filter_ok : Bool
  pub raw : ℕ
  pub counts_per_turn : ℕ
  pub ok : Bool

-- The members of `EncoderService`, with a sensor; `kept` is the calibration.
pub record Service (fl : Floats) : Type 0 where
  pub kept : Encoder fl
  pub pll : Pll fl
  pub sample : Sample fl
  pub spi_pending : Bool
  pub calls : List SensorCall

module _ (fl : Floats) where
  abbrev pub call : SensorCall → Service fl → Service fl
  call c s = record s { calls = c ∷ s.calls }

  -- `UpdatePllOutput`
  unfoldable pub update_pll_output : Service fl → Service fl
  update_pll_output s = record s {
    sample = record s.sample {
      mechanical_velocity_rad_s = s.pll.velocity;
      electrical_velocity_rad_s = omega_elec fl s.pll;
      electrical_rad = s.pll.electrical_theta;
    };
  }

  -- The angle of the counts.
  unfoldable pub counts_angle : ℕ → ℕ → fl.F
  counts_angle raw counts_per_turn =
      let per_count = fl.div (two_pi fl) (fl.of_u32 counts_per_turn) in
      if ltb 0 counts_per_turn
      then wrap_zero_to_two_pi fl (fl.mul (fl.of_u32 raw) per_count)
      else fl.lit 0 0

  -- `EncoderCompensationRad`
  unfoldable pub compensation_rad : Encoder fl → fl.F → fl.F
  compensation_rad e counts_rad =
      if e.compensation_valid
      then interpolate_encoder_comp fl e.compensation e.compensation_scale_rad counts_rad
      else fl.lit 0 0

  unfoldable pub commutation_rad : Angle fl → fl.F → fl.F
  commutation_rad a counts_rad =
      if a.commutation_valid
      then interpolate_commutation fl a.commutation_offset_rad counts_rad
      else fl.lit 0 0

  unfoldable pub mechanical : Angle fl → fl.F → fl.F
  mechanical a counts_rad = wrap_zero_to_two_pi fl (fl.add (fl.mul a.sign counts_rad) a.offset_rad)

  -- `UpdateSampleFromRaw`
  unfoldable pub update_sample : Answers → Service fl → Service fl
  update_sample r s =
      let raw = u16 r.raw in
      let counts_rad = counts_angle raw r.counts_per_turn in
      let mechanical_rad = mechanical s.kept.angle counts_rad in
      let pp = s.pll.options.pole_pairs in
      let shift =
        if fl.lt (fl.lit 1 6) pp
        then fl.div (commutation_rad s.kept.angle counts_rad) pp
        else fl.lit 0 0 in
      record s {
        sample = record s.sample {
          raw = raw;
          counts_rad = counts_rad;
          mechanical_rad = mechanical_rad;
          compensated_mechanical_rad =
              wrap_zero_to_two_pi fl
                (fl.add (fl.add mechanical_rad (compensation_rad s.kept counts_rad)) shift);
          valid = r.ok;
        };
      }

  -- `SampleBlocking`
  unfoldable pub read_angle_if : Bool → Service fl → Service fl
  read_angle_if true s = update_pll_output s
  read_angle_if false s = record s {
    sample = record s.sample {
      electrical_rad =
          wrap_zero_to_two_pi fl
            (fl.mul s.sample.compensated_mechanical_rad s.pll.options.pole_pairs);
    };
  }

  unfoldable pub sample_blocking : Answers → Service fl → Service fl
  sample_blocking r s =
      read_angle_if s.pll.theta_valid
        (update_sample r (call sample_now (record s { spi_pending = false })))

  -- `Init`
  unfoldable pub init_if : Bool → Answers → Service fl → Service fl × Bool
  init_if false r s = (s, false)
  init_if true r s = (sample_blocking r s, true)

  unfoldable pub init : Answers → Service fl → Service fl × Bool
  init r s = init_if r.init_ok r (call sensor_init s)

  -- `UpdatePwmIsr`
  unfoldable pub fetch_if : Bool → Service fl → Service fl
  fetch_if true s = call finish_sample (record s { spi_pending = false })
  fetch_if false s = call sample_now s

  unfoldable pub track : fl.F → Service fl → Service fl
  track dt_s s = record s {
    pll = update fl s.sample.compensated_mechanical_rad dt_s (fl.lit 0 0) s.pll;
  }

  unfoldable pub update_pwm_isr : fl.F → Answers → Service fl → Service fl
  update_pwm_isr dt_s r s =
      record (call start_sample
        (update_pll_output (track dt_s (update_sample r (fetch_if s.spi_pending s))))) {
          spi_pending = true;
        }

  -- `ResetPll`
  unfoldable pub reset_pll : Service fl → Service fl
  reset_pll s =
      update_pll_output
        (record s { pll = reset fl s.sample.compensated_mechanical_rad (fl.lit 0 0) s.pll })

  -- `SetPllOptions`, `SetSensorFilterUs`
  unfoldable pub set_pll_options : Options fl → Service fl → Service fl
  set_pll_options o s = record s { pll = spcd_actuator.Encoder.Pll.set_options fl o s.pll }

  unfoldable pub set_sensor_filter_us : ℕ → Answers → Service fl → Service fl × Bool
  set_sensor_filter_us filter_us r s = (call (set_filter_us filter_us) s, r.filter_ok)

  -- What `SetCalibration` does after the calibration was put.
  unfoldable pub recompute : Answers → Service fl → Service fl
  recompute r s = reset_pll (update_sample r s)

  -- `BeginCalibration`, `RestoreCalibration` and `ApplyCalibration`, all by `SetCalibration`
  unfoldable pub begin_calibration : Answers → Service fl → Service fl
  begin_calibration r s =
      recompute r (record s { kept = spcd_actuator.Calibration.Encoder.begin_calibration s.kept })

  unfoldable pub restore_if : Bool → Answers → Service fl → Service fl
  restore_if false r s = s
  restore_if true r s =
      recompute r (record s { kept = spcd_actuator.Calibration.Encoder.restore_calibration s.kept })

  unfoldable pub restore_calibration : Answers → Service fl → Service fl
  restore_calibration r s = restore_if s.kept.backup_valid r s

  unfoldable pub apply_calibration : Angle fl → Answers → Service fl → Service fl
  apply_calibration a r s =
      recompute r (record s { kept = spcd_actuator.Calibration.Encoder.apply_calibration a s.kept })

  -- `CommitCompensation`, which takes a new sample where it succeeds, and `SetCompensation`
  unfoldable pub commit_if : Bool → Answers → Service fl → Service fl × Bool
  commit_if false r s = (s, false)
  commit_if true r s = (update_sample r s, true)

  unfoldable pub commit_compensation : fl.F → Answers → Service fl → Service fl × Bool
  commit_compensation scale_rad r s =
      let done = spcd_actuator.Calibration.Encoder.commit_compensation scale_rad s.kept in
      commit_if done.1 r (record s { kept = done.0 })

  unfoldable pub set_compensation : List ℕ → fl.F → Bool → Answers → Service fl → Service fl
  set_compensation table scale_rad valid r s = update_sample r (record s {
    kept = spcd_actuator.Calibration.Encoder.set_compensation table scale_rad valid s.kept;
  })

  -- `CoggingCurrentCompensation`
  unfoldable pub cogging_current : Service fl → fl.F
  cogging_current s =
      if s.kept.cogging_valid
      then interpolate_cogging fl s.kept.cogging s.kept.cogging_scale_A s.sample.mechanical_rad
      else fl.lit 0 0
