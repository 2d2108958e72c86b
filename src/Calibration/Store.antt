-- ===== src/Calibration/Store.antt =====
-- fw/middleware/inc/middleware/persistence/motor_calibration_store.h: `Save` with its verification,
-- and what a saved calibration loads as.
use spcd_actuator.Prelude.{
  ℕ, ◌≡◌, refl, Bool, true, false, ◌&&◌, ◌||◌, not, List, [], ◌∷◌, Option, none, some, ◌==◌,
}
use spcd_actuator.Floats.{Floats}
use spcd_actuator.Store.Record.{Driver, program_all}
use spcd_actuator.Calibration.Record.{
  Stored, load, saved_sign, saved_commutation, saved_compensation, record_bytes,
}

-- `memcmp(…) == 0` of two tables of one size.
unfoldable pub same_bytes : List ℕ → List ℕ → Bool
same_bytes [] [] = true
same_bytes (x ∷ xs) (y ∷ ys) = x == y && same_bytes xs ys
same_bytes _ _ = false

-- `==` of two flags.
unfoldable pub same_flag : Bool → Bool → Bool
same_flag true b = b
same_flag false b = not b

module _ (fl : Floats) where
  -- The comparisons of `Save`: each parameter's flag is the one saved, and where it is set the values
  -- are the ones given.
  unfoldable pub copies_commutation : Stored fl → Stored fl → Bool
  copies_commutation v d =
      same_flag v.commutation_valid (saved_commutation fl d)
      && (not v.commutation_valid
          || (fl.eq v.commutation_residual_rad d.commutation_residual_rad
              && same_bytes v.commutation_offset_rad d.commutation_offset_rad))

  unfoldable pub copies_bemf : Stored fl → Stored fl → Bool
  copies_bemf v d =
      same_flag v.bemf_valid d.bemf_valid
      && (not v.bemf_valid || fl.eq v.bemf_v_per_hz d.bemf_v_per_hz)

  unfoldable pub copies_resistance : Stored fl → Stored fl → Bool
  copies_resistance v d =
      same_flag v.resistance_valid d.resistance_valid
      && (not v.resistance_valid || fl.eq v.resistance_ohm d.resistance_ohm)

  unfoldable pub copies_inductance : Stored fl → Stored fl → Bool
  copies_inductance v d =
      same_flag v.inductance_valid d.inductance_valid
      && (not v.inductance_valid
          || (fl.eq v.inductance_d_H d.inductance_d_H && fl.eq v.inductance_q_H d.inductance_q_H))

  unfoldable pub copies_cogging : Stored fl → Stored fl → Bool
  copies_cogging v d =
      same_flag v.cogging_valid d.cogging_valid
      && (not v.cogging_valid
          || (fl.eq v.cogging_scale d.cogging_scale && same_bytes v.cogging_table d.cogging_table))

  unfoldable pub copies_compensation : Stored fl → Stored fl → Bool
  copies_compensation v d =
      same_flag v.encoder_comp_valid (saved_compensation fl d)
      && (not v.encoder_comp_valid
          || (fl.eq v.encoder_comp_scale d.encoder_comp_scale
              && same_bytes v.encoder_comp_table d.encoder_comp_table))

  unfoldable pub copies_angle : Stored fl → Stored fl → Bool
  copies_angle v d = fl.eq v.offset_rad d.offset_rad && fl.eq v.sign (saved_sign fl d)

  -- The verification at the end of `Save`.
  unfoldable pub is_copy : Stored fl → Stored fl → Bool
  is_copy v d =
      copies_angle v d
      && (copies_commutation v d
          && (copies_bemf v d
              && (copies_resistance v d
                  && (copies_inductance v d && (copies_cogging v d && copies_compensation v d)))))

  unfoldable pub verify : Option (Stored fl) → Stored fl → Bool
  verify none d = false
  verify (some v) d = is_copy v d

  -- The results of `Save` by those of the erasing and of the programming.
  unfoldable pub finish_save : List ℕ × Bool → List ℕ × Bool → Stored fl → List ℕ × Bool
  finish_save (erased, false) written d = (erased, false)
  finish_save (erased, true) (written, false) d = (written, false)
  finish_save (erased, true) (written, true) d = (written, verify (load fl written) d)

  -- `Save`: the pages afterwards and the returned flag. The record is 201 doublewords long.
  unfoldable pub save : Driver → Stored fl → List ℕ → List ℕ × Bool
  save flash d page =
      let erased = flash.erase page in
      finish_save erased (program_all flash 201 0 (record_bytes fl d) erased.0) d

  verify_lem :
      (o : Option (Stored fl)) (d : Stored fl)
      → verify o d ≡ true
      → (v : Stored fl) × (o ≡ some v) × (is_copy v d ≡ true)
  unfolding verify
  verify_lem none d h = cc
  verify_lem (some v) d h = (v, refl, h)

  finish_save-true :
      (e w : List ℕ × Bool) (d : Stored fl)
      → (finish_save e w d).1 ≡ true
      → (v : Stored fl) × (load fl (finish_save e w d).0 ≡ some v) × (is_copy v d ≡ true)
  unfolding finish_save
  finish_save-true (e, true) (w, true) d h = verify_lem _ d h
  finish_save-true (e, true) (w, false) d h = cc
  finish_save-true (e, false) w d h = cc

  -- A save that reports success has left pages that load as a copy of the data, whatever the flash
  -- did.
  pub load_saved :
      (flash : Driver) (d : Stored fl) (page : List ℕ)
      → (save flash d page).1 ≡ true
      → (v : Stored fl) × (load fl (save flash d page).0 ≡ some v) × (is_copy v d ≡ true)
  unfolding save
  load_saved flash d page h = finish_save-true _ _ d h
