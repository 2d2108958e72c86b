-- ===== src/Calibration/Manager.antt =====
-- fw/middleware/inc/middleware/calibration/calibration_manager.h: `CalibrationManager`, which applies
-- the sessions' results and defers their writing to the flash. The board passes every pointer, so
-- none of them is null here; the sessions are `Switches` of the motor control service.
use spcd_actuator.Prelude.{ℕ, Bool, true, false, ◌||◌, not, List, Option, none, some, if◌then◌else◌}
use spcd_actuator.Floats.{Floats}
use spcd_actuator.Store.Record.{Driver}
use spcd_actuator.Calibration.Record.{Stored, default_stored, load}
use spcd_actuator.Calibration.Store.{save}
use spcd_actuator.Calibration.Encoder.{
  Angle, Encoder, apply_calibration, set_calibration, set_cogging, set_compensation,
  begin_calibration, restore_calibration, clear_compensation, set_compensation_chunk,
  commit_compensation,
}

-- One flag for each kind of calibration: the members `…_dirty_`, and `…_persisted_`.
pub record Flags : Type 0 where
  pub encoder : Bool
  pub bemf : Bool
  pub resistance : Bool
  pub inductance : Bool
  pub cogging : Bool
  pub compensation : Bool

abbrev pub no_flags : Flags
no_flags = record {
  encoder = false;
  bemf = false;
  resistance = false;
  inductance = false;
  cogging = false;
  compensation = false;
}

-- The results of the sessions, of which the manager reads these fields.
pub record Results (fl : Floats) : Type 0 where
  pub encoder_ok : Bool
  pub angle : Angle fl
  pub residual_rad_rms : fl.F
  pub bemf_ok : Bool
  pub ke_v_s_per_rad : fl.F
  pub resistance_ok : Bool
  pub resistance_ohm : fl.F
  pub inductance_ok : Bool
  pub inductance_d_H : fl.F
  pub inductance_q_H : fl.F
  pub cogging_ok : Bool
  pub cogging_table : List ℕ
  pub cogging_scale : fl.F

-- The manager with the encoder and the parameters of the controllers that it sets, the results of its
-- sessions, and the interrupt, which it turns off before it writes.
pub record Manager (fl : Floats) : Type 0 where
  pub encoder : Encoder fl
  pub dirty : Flags
  pub persisted : Flags
  pub last_kind : ℕ
  pub results : Results fl
  pub foc_v_per_hz : fl.F
  pub servo_torque_constant : fl.F
  pub foc_resistance_ohm : fl.F
  pub foc_inductance_d_H : fl.F
  pub foc_inductance_q_H : fl.F
  pub isr_on : Bool

-- `if (dirty) persisted = saved` of each kind
unfoldable pub mark_saved : Bool → Flags → Flags → Flags
mark_saved saved dirty persisted = record {
  encoder = if dirty.encoder then saved else persisted.encoder;
  bemf = if dirty.bemf then saved else persisted.bemf;
  resistance = if dirty.resistance then saved else persisted.resistance;
  inductance = if dirty.inductance then saved else persisted.inductance;
  cogging = if dirty.cogging then saved else persisted.cogging;
  compensation = if dirty.compensation then saved else persisted.compensation;
}

module _ {fl : Floats} where
  -- `LoadPersistentConfig`, from what `Load` gives.
  unfoldable pub load_stored : Option (Stored fl) → Manager fl → Manager fl × Bool
  load_stored none m = (m, false)
  load_stored (some d) m = (
    record m {
      encoder = set_compensation d.encoder_comp_table d.encoder_comp_scale d.encoder_comp_valid (
          set_cogging d.cogging_table d.cogging_scale d.cogging_valid (
            set_calibration
              (record {
                sign = d.sign;
                offset_rad = d.offset_rad;
                commutation_offset_rad = d.commutation_offset_rad;
                commutation_valid = d.commutation_valid;
              })
              m.encoder));
      persisted = record {
        encoder = true;
        bemf = d.bemf_valid;
        resistance = d.resistance_valid;
        inductance = d.inductance_valid;
        cogging = d.cogging_valid;
        compensation = d.encoder_comp_valid;
      };
    },
    true,
  )

  unfoldable pub load_persistent_config : List ℕ → Manager fl → Manager fl × Bool
  load_persistent_config page m = load_stored (load fl page) m

  -- `Abort`, of the encoder; the sessions' `Stop` is that of the motor control service.
  unfoldable pub abort_calibration : Manager fl → Manager fl
  abort_calibration m = record m { encoder = restore_calibration m.encoder }

  -- `SetLastKind`
  unfoldable pub set_last_kind : ℕ → Manager fl → Manager fl
  set_last_kind kind m = record m { last_kind = kind }

  -- `ApplyEncoderResult`
  unfoldable pub apply_encoder_result : Manager fl → Manager fl
  apply_encoder_result m = if not m.results.encoder_ok then m else record m {
    encoder = apply_calibration m.results.angle m.encoder;
    dirty = record m.dirty { encoder = true };
    persisted = record m.persisted { encoder = false };
  }

  -- `ApplyBemfResult`
  unfoldable pub apply_bemf_result : Manager fl → Manager fl
  apply_bemf_result m =
      let ke = m.results.ke_v_s_per_rad in
      if not m.results.bemf_ok || fl.le ke (fl.lit 5 3) then m else record m {
        foc_v_per_hz = ke;
        servo_torque_constant = fl.mul (fl.lit 15 1) ke;
        dirty = record m.dirty { bemf = true };
        persisted = record m.persisted { bemf = false };
      }

  -- `ApplyResistanceResult`
  unfoldable pub apply_resistance_result : Manager fl → Manager fl
  apply_resistance_result m =
      if not m.results.resistance_ok || fl.le m.results.resistance_ohm (fl.lit 1 3)
      then m
      else record m {
        foc_resistance_ohm = m.results.resistance_ohm;
        dirty = record m.dirty { resistance = true };
        persisted = record m.persisted { resistance = false };
      }

  -- `ApplyInductanceResult`
  unfoldable pub apply_inductance_result : Manager fl → Manager fl
  apply_inductance_result m =
      if not m.results.inductance_ok
        || (fl.le m.results.inductance_d_H (fl.lit 0 0)
            || fl.le m.results.inductance_q_H (fl.lit 0 0))
      then m
      else record m {
        foc_inductance_d_H = m.results.inductance_d_H;
        foc_inductance_q_H = m.results.inductance_q_H;
        dirty = record m.dirty { inductance = true };
        persisted = record m.persisted { inductance = false };
      }

  -- `ApplyCoggingResult`
  unfoldable pub apply_cogging_result : Manager fl → Manager fl
  apply_cogging_result m =
      let scale = m.results.cogging_scale in
      if not m.results.cogging_ok then m else record m {
        encoder = set_cogging m.results.cogging_table scale (fl.lt (fl.lit 0 0) scale) m.encoder;
        dirty = record m.dirty { cogging = true };
        persisted = record m.persisted { cogging = false };
      }

  -- `MarkCompensationDirty`
  unfoldable pub mark_compensation_dirty : Manager fl → Manager fl
  mark_compensation_dirty m = record m {
    dirty = record m.dirty { compensation = true };
    persisted = record m.persisted { compensation = false };
  }

  -- `StartEncoderPhase`, which does not fail with the encoder there.
  unfoldable pub start_encoder_phase : Manager fl → Manager fl
  start_encoder_phase m = record m {
    encoder = begin_calibration m.encoder;
    persisted = record m.persisted { encoder = false };
  }

  -- `ClearCompensation`, `SetCompensationChunk`, `CommitCompensation`
  unfoldable pub clear : Manager fl → Manager fl
  clear m = mark_compensation_dirty (record m { encoder = clear_compensation m.encoder })

  unfoldable pub set_chunk : ℕ → List ℕ → Manager fl → Manager fl × Bool
  set_chunk chunk bytes m =
      let (e, ok) = set_compensation_chunk chunk bytes m.encoder in (record m { encoder = e }, ok)

  unfoldable pub commit : fl.F → Manager fl → Manager fl × Bool
  commit scale_rad m =
      let (e, ok) = commit_compensation scale_rad m.encoder in
      let written = record m { encoder = e } in
      if ok then (mark_compensation_dirty written, true) else (written, false)

  -- `has_pending_persist`
  unfoldable pub has_pending_persist : Manager fl → Bool
  has_pending_persist m =
      m.dirty.encoder
      || (m.dirty.bemf
          || (m.dirty.resistance
              || (m.dirty.inductance || (m.dirty.cogging || m.dirty.compensation))))

  -- What `PersistPending` writes over the data that were loaded, or over the defaults.
  unfoldable pub loaded_or_default : Option (Stored fl) → Stored fl
  loaded_or_default none = default_stored fl
  loaded_or_default (some d) = d

  unfoldable pub pending_data : Manager fl → Stored fl → Stored fl
  pending_data m d =
      let dirty = m.dirty in
      let angle = m.encoder.angle in
      record {
        offset_rad = if dirty.encoder then angle.offset_rad else d.offset_rad;
        sign = if dirty.encoder then angle.sign else d.sign;
        commutation_offset_rad =
            if dirty.encoder then angle.commutation_offset_rad else d.commutation_offset_rad;
        commutation_valid = if dirty.encoder then angle.commutation_valid else d.commutation_valid;
        commutation_residual_rad =
            if dirty.encoder then m.results.residual_rad_rms else d.commutation_residual_rad;
        bemf_v_per_hz = if dirty.bemf then m.results.ke_v_s_per_rad else d.bemf_v_per_hz;
        bemf_valid = if dirty.bemf then true else d.bemf_valid;
        resistance_ohm = if dirty.resistance then m.results.resistance_ohm else d.resistance_ohm;
        resistance_valid = if dirty.resistance then true else d.resistance_valid;
        inductance_d_H = if dirty.inductance then m.results.inductance_d_H else d.inductance_d_H;
        inductance_q_H = if dirty.inductance then m.results.inductance_q_H else d.inductance_q_H;
        inductance_valid = if dirty.inductance then true else d.inductance_valid;
        cogging_table = if dirty.cogging then m.encoder.cogging else d.cogging_table;
        cogging_scale = if dirty.cogging then m.encoder.cogging_scale_A else d.cogging_scale;
        cogging_valid = if dirty.cogging then m.encoder.cogging_valid else d.cogging_valid;
        encoder_comp_table =
            if dirty.compensation then m.encoder.compensation else d.encoder_comp_table;
        encoder_comp_scale =
            if dirty.compensation then m.encoder.compensation_scale_rad else d.encoder_comp_scale;
        encoder_comp_valid =
            if dirty.compensation then m.encoder.compensation_valid else d.encoder_comp_valid;
      }

  unfoldable pub finish_persist : List ℕ × Bool → Manager fl → Manager fl × List ℕ
  finish_persist (page, saved) m = (
    record m { isr_on = false; persisted = mark_saved saved m.dirty m.persisted; dirty = no_flags },
    page,
  )

  -- `PersistPending`: the manager and the pages afterwards.
  unfoldable pub persist_if : Bool → Driver → List ℕ → Manager fl → Manager fl × List ℕ
  persist_if false flash page m = (m, page)
  persist_if true flash page m =
      finish_persist (save fl flash (pending_data m (loaded_or_default (load fl page))) page) m

  unfoldable pub persist_pending : Driver → List ℕ → Manager fl → Manager fl × List ℕ
  persist_pending flash page m = persist_if (has_pending_persist m) flash page m
