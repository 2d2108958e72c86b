-- ===== src/Calibration/Reboot.antt =====
-- What the next start of the firmware finds after the pending results were written.
use spcd_actuator.Prelude.{
  ℕ, ◌≡◌, ◌⊎◌, refl, Bool, true, false, ◌&&◌, ◌||◌, not, List, some, if◌then◌else◌,
}
use spcd_actuator.Floats.{Floats}
use spcd_actuator.Calibration.Record.{Stored, load, saved_compensation}
use spcd_actuator.Calibration.Store.{
  same_bytes, copies_angle, copies_commutation, copies_bemf, copies_resistance, copies_inductance,
  copies_cogging, copies_compensation,
}
use spcd_actuator.Calibration.Manager.{
  Flags, Manager, load_persistent_config, loaded_or_default, mark_saved,
}

pub &&-first : (a b : Bool) → (a && b) ≡ true → a ≡ true
&&-first true b h = refl
&&-first false b h = cc

pub &&-second : (a b : Bool) → (a && b) ≡ true → b ≡ true
&&-second true b h = h
&&-second false b h = cc

module _ {fl : Floats} where
  -- The flags of a copy.
  abbrev stored_flags : Stored fl → Flags
  stored_flags d = record {
    encoder = true;
    bemf = d.bemf_valid;
    resistance = d.resistance_valid;
    inductance = d.inductance_valid;
    cogging = d.cogging_valid;
    compensation = d.encoder_comp_valid;
  }

  abbrev saved_flags : Stored fl → Flags
  saved_flags d = record (stored_flags d) { compensation = saved_compensation fl d }

  -- The flags that the next start reads: of a kind with a pending result those of the result, of the
  -- others those in the flash before.
  abbrev pub next_flags : Manager fl → Stored fl → Flags
  next_flags m d = record {
    encoder = true;
    bemf = m.dirty.bemf || d.bemf_valid;
    resistance = m.dirty.resistance || d.resistance_valid;
    inductance = m.dirty.inductance || d.inductance_valid;
    cogging = if m.dirty.cogging then m.encoder.cogging_valid else d.cogging_valid;
    compensation =
        (if m.dirty.compensation then m.encoder.compensation_valid else d.encoder_comp_valid)
        && fl.lt (fl.lit 0 0) (
            if m.dirty.compensation
            then m.encoder.compensation_scale_rad
            else d.encoder_comp_scale);
  }

  -- What a record holds of the pending results, and of the record before for the kinds without one:
  -- the angle with a sign of 1 or -1, and of every kind that the record has as valid the values.
  pub record IsFound (m : Manager fl) (old v : Stored fl) : Type 0 where
    pub offset :
        fl.eq v.offset_rad (if m.dirty.encoder then m.encoder.angle.offset_rad else old.offset_rad)
        ≡ true
    pub sign :
        fl.eq v.sign (
          if fl.le (fl.lit 0 0) (if m.dirty.encoder then m.encoder.angle.sign else old.sign)
          then fl.lit 1 0
          else fl.neg (fl.lit 1 0))
        ≡ true
    pub commutation :
        (not v.commutation_valid
          || (fl.eq v.commutation_residual_rad (
                if m.dirty.encoder
                then m.results.residual_rad_rms
                else old.commutation_residual_rad)
              && same_bytes v.commutation_offset_rad (
                  if m.dirty.encoder
                  then m.encoder.angle.commutation_offset_rad
                  else old.commutation_offset_rad)))
        ≡ true
    pub bemf :
        (not v.bemf_valid
          || fl.eq v.bemf_v_per_hz
              (if m.dirty.bemf then m.results.ke_v_s_per_rad else old.bemf_v_per_hz))
        ≡ true
    pub resistance :
        (not v.resistance_valid
          || fl.eq v.resistance_ohm
              (if m.dirty.resistance then m.results.resistance_ohm else old.resistance_ohm))
        ≡ true
    pub inductance :
        (not v.inductance_valid
          || (fl.eq v.inductance_d_H
                (if m.dirty.inductance then m.results.inductance_d_H else old.inductance_d_H)
              && fl.eq v.inductance_q_H
                  (if m.dirty.inductance then m.results.inductance_q_H else old.inductance_q_H)))
        ≡ true
    pub cogging :
        (not v.cogging_valid
          || (fl.eq v.cogging_scale
                (if m.dirty.cogging then m.encoder.cogging_scale_A else old.cogging_scale)
              && same_bytes v.cogging_table
                  (if m.dirty.cogging then m.encoder.cogging else old.cogging_table)))
        ≡ true
    pub compensation :
        (not v.encoder_comp_valid
          || (fl.eq v.encoder_comp_scale (
                if m.dirty.compensation
                then m.encoder.compensation_scale_rad
                else old.encoder_comp_scale)
              && same_bytes v.encoder_comp_table (
                  if m.dirty.compensation then m.encoder.compensation else old.encoder_comp_table)))
        ≡ true

  -- The comparisons of a copy.
  record Copies (v d : Stored fl) : Type 0 where
    angle : copies_angle fl v d ≡ true
    commutation : copies_commutation fl v d ≡ true
    bemf : copies_bemf fl v d ≡ true
    resistance : copies_resistance fl v d ≡ true
    inductance : copies_inductance fl v d ≡ true
    cogging : copies_cogging fl v d ≡ true
    compensation : copies_compensation fl v d ≡ true

  -- The two outcomes of `PersistPending`: the save fails and the written kinds are reported as not
  -- persisted, or it succeeds, they are reported as persisted, and the next start finds the flags.
  abbrev Outcome : Manager fl → Manager fl → List ℕ → Manager fl × List ℕ → Type 0
  Outcome m next page r =
      (r.0.persisted ≡ mark_saved false m.dirty m.persisted)
      ⊎ ((r.0.persisted ≡ mark_saved true m.dirty m.persisted)
          × ((load_persistent_config r.1 next).1 ≡ true)
          × ((load_persistent_config r.1 next).0.persisted
              ≡ next_flags m (loaded_or_default (load fl page)))
          × ((v : Stored fl) × (load fl r.1 ≡ some v)
              × IsFound m (loaded_or_default (load fl page)) v))
