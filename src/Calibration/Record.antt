-- ===== src/Calibration/Record.antt =====
-- fw/middleware/inc/middleware/persistence/motor_calibration_store.h: `MotorCalibrationStore`, the
-- calibration in the last pages of flash, with the records of the older firmware. A record is packed:
-- its bytes in order. The tables are their bytes. The CRC and the loop over doublewords are those of
-- the configuration's store, whose code is the same.
use spcd_actuator.Prelude.{
  ℕ, ◌+◌, Bool, false, ◌&&◌, ◌||◌, not, List, ◌++◌, Option, none, some, if◌then◌else◌, ◌==◌, take,
  drop, replicate,
}
use spcd_actuator.Floats.{Floats}
use spcd_actuator.Link.Protocol.{le32, read_word}
use spcd_actuator.Store.Record.{crc_bytes}

-- `MotorCalibration`
pub record Stored (fl : Floats) : Type 0 where
  pub offset_rad : fl.F
  pub sign : fl.F
  pub commutation_offset_rad : List ℕ
  pub commutation_valid : Bool
  pub commutation_residual_rad : fl.F
  pub bemf_v_per_hz : fl.F
  pub bemf_valid : Bool
  pub resistance_ohm : fl.F
  pub resistance_valid : Bool
  pub inductance_d_H : fl.F
  pub inductance_q_H : fl.F
  pub inductance_valid : Bool
  pub cogging_table : List ℕ
  pub cogging_scale : fl.F
  pub cogging_valid : Bool
  pub encoder_comp_table : List ℕ
  pub encoder_comp_scale : fl.F
  pub encoder_comp_valid : Bool

-- `MotorCalibration{}`
abbrev pub default_stored : (fl : Floats) → Stored fl
default_stored fl = record {
  offset_rad = fl.lit 0 0;
  sign = fl.lit 1 0;
  commutation_offset_rad = replicate 256 0;
  commutation_valid = false;
  commutation_residual_rad = fl.lit 0 0;
  bemf_v_per_hz = fl.lit 0 0;
  bemf_valid = false;
  resistance_ohm = fl.lit 0 0;
  resistance_valid = false;
  inductance_d_H = fl.lit 0 0;
  inductance_q_H = fl.lit 0 0;
  inductance_valid = false;
  cogging_table = replicate 1024 0;
  cogging_scale = fl.lit 0 0;
  cogging_valid = false;
  encoder_comp_table = replicate 256 0;
  encoder_comp_scale = fl.lit 0 0;
  encoder_comp_valid = false;
}

-- `kMagic`, `kVersion`
abbrev pub calibration_magic : ℕ
calibration_magic = 1480937027

abbrev pub calibration_version : ℕ
calibration_version = 7

module _ (fl : Floats) where
  -- The float and the flag at an offset of a record.
  unfoldable pub float_at : List ℕ → ℕ → fl.F
  float_at page off = fl.of_bits (read_word page off)

  unfoldable pub flag_at : List ℕ → ℕ → Bool
  flag_at page off = not (read_word page off == 0)

  -- The test of every version: the CRC, which stands at the given offset, and the sign.
  unfoldable pub is_intact : ℕ → List ℕ → Bool
  is_intact crc_offset page =
      let sign = float_at page 12 in
      (read_word page crc_offset == crc_bytes (take crc_offset page))
      && (fl.eq sign (fl.lit 1 0) || fl.eq sign (fl.neg (fl.lit 1 0)))

  -- `residual >= 0 && residual <= kMaxCommutationResidualRad`
  unfoldable pub is_residual : fl.F → Bool
  is_residual x = fl.le (fl.lit 0 0) x && fl.le x (fl.lit 25 2)

  -- The fields of the electrical parameters, which stand together in every version from the fourth on.
  unfoldable pub load_electrical : ℕ → List ℕ → Stored fl → Stored fl
  load_electrical off page s = record s {
    bemf_v_per_hz = float_at page off;
    bemf_valid = flag_at page (off + 4);
    resistance_ohm = float_at page (off + 8);
    resistance_valid = flag_at page (off + 12);
    inductance_d_H = float_at page (off + 16);
    inductance_q_H = float_at page (off + 20);
    inductance_valid = flag_at page (off + 24);
  }

  unfoldable pub load_angle : List ℕ → Stored fl → Stored fl
  load_angle page s = record s { offset_rad = float_at page 8; sign = float_at page 12 }

  unfoldable pub load_commutation : List ℕ → Stored fl → Stored fl
  load_commutation page s =
      let residual = float_at page 276 in
      record s {
        commutation_offset_rad = take 256 (drop 16 page);
        commutation_residual_rad = residual;
        commutation_valid = flag_at page 272 && is_residual residual;
      }

  unfoldable pub load_cogging : List ℕ → Stored fl → Stored fl
  load_cogging page s = record s {
    cogging_table = take 1024 (drop 308 page);
    cogging_scale = float_at page 1332;
    cogging_valid = flag_at page 1336;
  }

  unfoldable pub load_compensation : List ℕ → Stored fl → Stored fl
  load_compensation page s =
      let scale = float_at page 1596 in
      record s {
        encoder_comp_table = take 256 (drop 1340 page);
        encoder_comp_scale = scale;
        encoder_comp_valid = flag_at page 1600 && fl.lt (fl.lit 0 0) scale;
      }

  -- The records of `Load` by their versions.
  unfoldable pub load_3 : List ℕ → Stored fl
  load_3 page = record (load_angle page (default_stored fl)) {
    bemf_v_per_hz = float_at page 16;
    bemf_valid = flag_at page 20;
    resistance_ohm = float_at page 24;
    resistance_valid = flag_at page 28;
    inductance_d_H = float_at page 32;
    inductance_q_H = float_at page 32;
    inductance_valid = flag_at page 36;
  }

  unfoldable pub load_4 : List ℕ → Stored fl
  load_4 page = load_electrical 276 page (load_angle page (default_stored fl))

  unfoldable pub load_5 : List ℕ → Stored fl
  load_5 page =
      load_electrical 280 page (load_commutation page (load_angle page (default_stored fl)))

  unfoldable pub load_6 : List ℕ → Stored fl
  load_6 page = load_cogging page (load_5 page)

  unfoldable pub load_7 : List ℕ → Stored fl
  load_7 page = load_compensation page (load_6 page)

  unfoldable pub load_if : Bool → Stored fl → Option (Stored fl)
  load_if intact s = if intact then some s else none

  unfoldable pub load_at : ℕ → List ℕ → Option (Stored fl)
  load_at version page =
      if version == calibration_version
      then load_if (is_intact 1604 page) (load_7 page)
      else if version == 6
      then load_if (is_intact 1340 page) (load_6 page)
      else if version == 5
      then load_if (is_intact 308 page) (load_5 page)
      else if version == 4
      then load_if (is_intact 304 page) (load_4 page)
      else if version == 3
      then load_if (is_intact 40 page) (load_3 page)
      else none

  -- `Load`, from the bytes at `kBaseAddr`.
  unfoldable pub load : List ℕ → Option (Stored fl)
  load page =
      let version = read_word page 4 in
      if read_word page 0 == calibration_magic then load_at version page else none

  -- What `Save` stores of the data.
  unfoldable pub saved_sign : Stored fl → fl.F
  saved_sign d = if fl.le (fl.lit 0 0) d.sign then fl.lit 1 0 else fl.neg (fl.lit 1 0)

  unfoldable pub saved_commutation : Stored fl → Bool
  saved_commutation d = d.commutation_valid && is_residual d.commutation_residual_rad

  unfoldable pub saved_compensation : Stored fl → Bool
  saved_compensation d = d.encoder_comp_valid && fl.lt (fl.lit 0 0) d.encoder_comp_scale

  unfoldable pub float_bytes : fl.F → List ℕ
  float_bytes x = le32 (fl.to_bits x)

  unfoldable pub flag_bytes : Bool → List ℕ
  flag_bytes b = le32 (if b then 1 else 0)

  -- The record of `Save` before its CRC, and the whole record.
  unfoldable pub record_body : Stored fl → List ℕ
  record_body d =
      le32 calibration_magic
      ++ (le32 calibration_version
          ++ (float_bytes d.offset_rad
              ++ (float_bytes (saved_sign d)
                  ++ (d.commutation_offset_rad
                      ++ (flag_bytes (saved_commutation d)
                          ++ (float_bytes d.commutation_residual_rad
                              ++ (electrical_bytes d ++ table_bytes d)))))))
    where
      electrical_bytes : Stored fl → List ℕ
      electrical_bytes d =
          float_bytes d.bemf_v_per_hz
          ++ (flag_bytes d.bemf_valid
              ++ (float_bytes d.resistance_ohm
                  ++ (flag_bytes d.resistance_valid
                      ++ (float_bytes d.inductance_d_H
                          ++ (float_bytes d.inductance_q_H ++ flag_bytes d.inductance_valid)))))

      table_bytes : Stored fl → List ℕ
      table_bytes d =
          d.cogging_table
          ++ (float_bytes d.cogging_scale
              ++ (flag_bytes d.cogging_valid
                  ++ (d.encoder_comp_table
                      ++ (float_bytes d.encoder_comp_scale ++ flag_bytes (saved_compensation d)))))

  unfoldable pub record_bytes : Stored fl → List ℕ
  record_bytes d = let body = record_body d in body ++ le32 (crc_bytes body)
