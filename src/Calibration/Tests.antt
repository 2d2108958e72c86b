-- ===== src/Calibration/Tests.antt =====
-- The theorems on the calibration at concrete states.
use spcd_actuator.Prelude.{
  ℕ, ◌≡◌, true, false, ◌&&◌, not, List, [], ◌∷◌, replicate, passes_below, leb, take, drop, ◌++◌,
  ◌+◌,
}
use spcd_actuator.Floats.{whole}
use spcd_actuator.Store.Record.{Driver}
use spcd_actuator.Calibration.Encoder.{Encoder, raw_angle, clear_compensation, commit_compensation}
use spcd_actuator.Calibration.Manager.{no_flags, Results, Manager}
use spcd_actuator.Calibration.Upload.{came, upload_all, commit_complete}

-- A flash that always works.
abbrev flash : Driver
flash = record {
  erase = λ page. (replicate 2048 255, true);
  program = λ off bytes page. (take off page ++ (bytes ++ drop (off + 8) page), true);
}

abbrev encoder : Encoder whole
encoder = record {
  angle = raw_angle whole;
  backup = raw_angle whole;
  backup_valid = false;
  compensation = [];
  compensation_scale_rad = 0;
  compensation_valid = false;
  chunk_mask = 0;
  cogging = [];
  cogging_scale_A = 0;
  cogging_valid = false;
}

abbrev results : Results whole
results = record {
  encoder_ok = true;
  angle = raw_angle whole;
  residual_rad_rms = 0;
  bemf_ok = true;
  ke_v_s_per_rad = 7;
  resistance_ok = true;
  resistance_ohm = 3;
  inductance_ok = false;
  inductance_d_H = 0;
  inductance_q_H = 0;
  cogging_ok = false;
  cogging_table = [];
  cogging_scale = 0;
}

abbrev fresh : Manager whole
fresh = record {
  encoder = encoder;
  dirty = no_flags;
  persisted = no_flags;
  last_kind = 0;
  results = results;
  foc_v_per_hz = 0;
  servo_torque_constant = 0;
  foc_resistance_ohm = 0;
  foc_inductance_d_H = 0;
  foc_inductance_q_H = 0;
  isr_on = true;
}

-- A resistance was measured.
abbrev measured : Manager whole
measured = record fresh { dirty = record no_flags { resistance = true } }

-- Two chunks, one of them twice, and one that is too short.
abbrev uploads : List (ℕ × List ℕ)
uploads = (0, replicate 32 1) ∷ (1, replicate 32 1) ∷ (1, replicate 32 2) ∷ (2, replicate 8 1) ∷ []

commit_complete_example :
    (commit_compensation 1 (upload_all uploads (clear_compensation encoder))).1
    ≡ (not (leb 1 0) && passes_below (came uploads) 8)
commit_complete_example = commit_complete uploads 1 encoder
