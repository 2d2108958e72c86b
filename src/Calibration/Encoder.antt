-- ===== src/Calibration/Encoder.antt =====
-- fw/middleware/inc/middleware/encoder/encoder_service.h: the calibration that `EncoderService` keeps,
-- its backup during a session, and the compensation table that comes in chunks. The samples and the
-- PLL, which a new calibration recomputes, are in Encoder/Service.
use spcd_actuator.Prelude.{
  ℕ, ◌+◌, ◌*◌, ◌^◌, Bool, true, false, ◌&&◌, ◌||◌, not, List, ◌++◌, if◌then◌else◌, ltb, leb, ◌==◌,
  take, drop, replicate, length, bit_or,
}
use spcd_actuator.Floats.{Floats}

-- `EncoderService::Calibration`; the table is its bytes.
pub record Angle (fl : Floats) : Type 0 where
  pub sign : fl.F
  pub offset_rad : fl.F
  pub commutation_offset_rad : List ℕ
  pub commutation_valid : Bool

-- `Calibration{}`
abbrev pub raw_angle : (fl : Floats) → Angle fl
raw_angle fl = record {
  sign = fl.lit 1 0;
  offset_rad = fl.lit 0 0;
  commutation_offset_rad = replicate 256 0;
  commutation_valid = false;
}

pub record Encoder (fl : Floats) : Type 0 where
  pub angle : Angle fl
  pub backup : Angle fl
  pub backup_valid : Bool
  pub compensation : List ℕ
  pub compensation_scale_rad : fl.F
  pub compensation_valid : Bool
  pub chunk_mask : ℕ
  pub cogging : List ℕ
  pub cogging_scale_A : fl.F
  pub cogging_valid : Bool

-- The table after a chunk of 32 bytes.
unfoldable pub put_chunk : ℕ → List ℕ → List ℕ → List ℕ
put_chunk chunk bytes table =
    take (chunk * 32) table ++ (take 32 bytes ++ drop (chunk * 32 + 32) table)

module _ {fl : Floats} where
  -- `SetCalibration`
  unfoldable pub set_calibration : Angle fl → Encoder fl → Encoder fl
  set_calibration a e = record e {
    angle = record a {
      sign = if fl.le (fl.lit 0 0) a.sign then fl.lit 1 0 else fl.neg (fl.lit 1 0);
    };
  }

  -- `BeginCalibration`
  unfoldable pub begin_calibration : Encoder fl → Encoder fl
  begin_calibration e =
      set_calibration (raw_angle fl) (record e { backup = e.angle; backup_valid = true })

  -- `RestoreCalibration`
  unfoldable pub restore_if : Bool → Encoder fl → Encoder fl
  restore_if false e = e
  restore_if true e = record (set_calibration e.backup e) { backup_valid = false }

  unfoldable pub restore_calibration : Encoder fl → Encoder fl
  restore_calibration e = restore_if e.backup_valid e

  -- `ApplyCalibration`
  unfoldable pub apply_calibration : Angle fl → Encoder fl → Encoder fl
  apply_calibration a e = record (set_calibration a e) { backup_valid = false }

  -- `ClearCompensation`
  unfoldable pub clear_compensation : Encoder fl → Encoder fl
  clear_compensation e = record e {
    compensation = replicate 256 0;
    compensation_scale_rad = fl.lit 0 0;
    compensation_valid = false;
    chunk_mask = 0;
  }

  -- `SetCompensationChunk`, with the data as bytes: the encoder and the returned flag.
  unfoldable pub set_compensation_chunk : ℕ → List ℕ → Encoder fl → Encoder fl × Bool
  set_compensation_chunk chunk bytes e =
      if leb 8 chunk || ltb (length bytes) 32 then (e, false) else (
        record e {
          compensation = put_chunk chunk bytes e.compensation;
          chunk_mask = bit_or e.chunk_mask (2 ^ chunk);
        },
        true,
      )

  -- `CommitCompensation`
  unfoldable pub commit_compensation : fl.F → Encoder fl → Encoder fl × Bool
  commit_compensation scale_rad e =
      if fl.le scale_rad (fl.lit 0 0) || not (e.chunk_mask == 255)
      then (record e { compensation_valid = false; compensation_scale_rad = fl.lit 0 0 }, false)
      else (record e { compensation_scale_rad = scale_rad; compensation_valid = true }, true)

  -- `SetCompensation`
  unfoldable pub set_compensation : List ℕ → fl.F → Bool → Encoder fl → Encoder fl
  set_compensation table scale_rad valid e =
      let usable = valid && fl.lt (fl.lit 0 0) scale_rad in
      record e {
        compensation = table;
        compensation_scale_rad = scale_rad;
        compensation_valid = usable;
        chunk_mask = if usable then 255 else 0;
      }

  -- `SetCogging`
  unfoldable pub set_cogging : List ℕ → fl.F → Bool → Encoder fl → Encoder fl
  set_cogging table scale_A valid e = record e {
    cogging = table;
    cogging_scale_A = scale_A;
    cogging_valid = valid && fl.lt (fl.lit 0 0) scale_A;
  }
