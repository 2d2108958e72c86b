-- ===== src/Encoder/Tests.antt =====
-- The encoder service in thousandths of a radian.
use spcd_actuator.Prelude.{refl, false, true, List, [], ◌∷◌, replicate}
use spcd_actuator.Floats.Milli.{milli, thousandths, lt_milli_irreflexive}
use spcd_actuator.Control.Bounds.{IsNotOutside}
use spcd_actuator.Calibration.Encoder.{Encoder, raw_angle}
use spcd_actuator.Encoder.Pll.{Pll, update, max_vel}
use spcd_actuator.Encoder.Pll.Bounds.{update-IsNotOutside}
use spcd_actuator.Encoder.Service.{Answers, Service, init}
use spcd_actuator.Encoder.Transfers.{
  Operation, do_isr, do_sample, do_begin, IsPaired, run, run-IsPaired,
}

abbrev pll : Pll milli
pll = record {
  options = record {
    pll_filter_hz = thousandths 400000;
    pole_pairs = thousandths 14000;
    max_velocity_mech_rad_s = thousandths 200000;
    spike_error_rad = thousandths 150;
  };
  kp = thousandths 2026000;
  ki = thousandths 1026000;
  filtered = thousandths 1000;
  integral = thousandths 0;
  velocity = thousandths 0;
  position = thousandths 1000;
  electrical_theta = thousandths 0;
  electrical_correction_rad = thousandths 0;
  theta_valid = true;
  have_sample = true;
  spike_count = 4294967295;
  last_spike_error_rad = thousandths 0;
  last_spike_velocity_rad_s = thousandths 0;
}

-- A jump by two radians in a millisecond.
update-IsNotOutside_example :
    IsNotOutside milli
      (milli.neg (thousandths 200000))
      (thousandths 200000)
      (update milli (thousandths 3000) (thousandths 1) (thousandths 0) pll).velocity
    × IsNotOutside milli
        (milli.neg (thousandths 200000))
        (thousandths 200000)
        (update milli (thousandths 3000) (thousandths 1) (thousandths 0) pll).integral
unfolding max_vel
update-IsNotOutside_example =
    update-IsNotOutside milli lt_milli_irreflexive (thousandths 3000) (thousandths 1)
      (thousandths 0) pll refl refl

abbrev kept : Encoder milli
kept = record {
  angle = raw_angle milli;
  backup = raw_angle milli;
  backup_valid = false;
  compensation = replicate 256 0;
  compensation_scale_rad = thousandths 0;
  compensation_valid = false;
  chunk_mask = 0;
  cogging = replicate 1024 0;
  cogging_scale_A = thousandths 0;
  cogging_valid = false;
}

abbrev pub built : Service milli
built = record {
  kept = kept;
  pll = pll;
  sample = record {
    raw = 0;
    counts_rad = thousandths 0;
    mechanical_rad = thousandths 0;
    compensated_mechanical_rad = thousandths 0;
    electrical_rad = thousandths 0;
    mechanical_velocity_rad_s = thousandths 0;
    electrical_velocity_rad_s = thousandths 0;
    valid = false;
  };
  spi_pending = false;
  calls = [];
}

abbrev pub answers : Answers
answers = record {
  init_ok = true;
  filter_ok = true;
  raw = 4096;
  counts_per_turn = 65536;
  ok = true;
}

abbrev session : List (Operation milli)
session =
    do_isr (thousandths 1) answers
    ∷ do_isr (thousandths 1) answers
    ∷ do_sample answers
    ∷ do_begin answers
    ∷ do_isr (thousandths 1) answers
    ∷ []

run-IsPaired_example : IsPaired milli (run milli session (init milli answers built).0)
run-IsPaired_example = run-IsPaired milli answers session built refl refl
