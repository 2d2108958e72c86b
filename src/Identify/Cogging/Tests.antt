-- ===== src/Identify/Cogging/Tests.antt =====
-- A cogging session at the board's defaults, in thousandths.
use spcd_actuator.Prelude.{
  ◌≡◌, ◌⊎◌, arith, true, get_or, false, if◌then◌else◌, ltb, List, [], ◌∷◌, replicate,
}
use spcd_actuator.Floats.Milli.{milli, thousandths}
use spcd_actuator.Identify.Cogging.Gaps.{empty_bin}
use spcd_actuator.Identify.Cogging.Session.{
  Options, Session, running, done, failed, forward_settle, empty_result, start, finish,
}
use spcd_actuator.Identify.Cogging.Means.{covered_count, HasMean}
use spcd_actuator.Identify.Cogging.Verdict.{run, finish_lem}

abbrev options : Options milli
options = record {
  velocity_mech_rad_s = thousandths 5000;
  record_revs = thousandths 4000;
  min_count_per_bin = 2;
  settle_timeout_s = thousandths 6000;
  record_timeout_s = thousandths 30000;
  speed_gate = thousandths 700;
}

abbrev session : Session milli
session = record {
  options = options;
  status = running;
  phase = forward_settle;
  phase_elapsed_s = thousandths 5999;
  travel = thousandths 0;
  prev_enc = thousandths 0;
  have_prev = false;
  bins = replicate 1024 (empty_bin milli);
  result = empty_result milli;
}

abbrev steps : List (milli.F × (milli.F × milli.F))
steps =
    (thousandths 1, (thousandths 100, thousandths 300))
    ∷ (thousandths 1, (thousandths 105, thousandths 310))
    ∷ []

finish_lem_example :
    ((finish milli (run milli steps (start milli options session))).status ≡ (
      if ltb (covered_count milli (run milli steps (start milli options session))) 768
      then failed
      else done))
    × ((ltb (covered_count milli (run milli steps (start milli options session))) 768 ≡ true)
        ⊎ HasMean milli
            (run milli steps (start milli options session))
            17
            (get_or
              (finish milli (run milli steps (start milli options session))).bins
              17
              (empty_bin milli)).sum0)
finish_lem_example = finish_lem milli options steps session 17 (omega arith)
