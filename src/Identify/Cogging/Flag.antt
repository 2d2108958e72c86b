-- ===== src/Identify/Cogging/Flag.antt =====
-- The answer of a cogging step: whether the session ended.
use spcd_actuator.Prelude.{◌≡◌, refl, ap, Bool, true, false, not}
use spcd_actuator.Floats.{Floats}
use spcd_actuator.Identify.Cogging.Gaps.{Gaps}
use spcd_actuator.Identify.Cogging.Session.{
  Session, running, is_running, fail, put_result, conclude, conclude_if, finish_if, finish,
  settle_if, forward_if, reverse_if, run_phase, step_if, step, Phase, forward_settle,
  forward_record, reverse_settle, reverse_record, accumulate_forward, accumulate_reverse, observe,
}

module _ (fl : Floats) where
  -- Where a session runs, a branch that says so ends it, and no other does.
  abbrev Says : Session fl × Bool → Type 0
  Says r = r.1 ≡ not (is_running r.0.status)

  settle_if-flag :
      (r l : Bool) (next : Phase) (s : Session fl)
      → s.status ≡ running
      → Says (settle_if fl r l next s)
  unfolding settle_if fail
  settle_if-flag true l next s e = rw e refl
  settle_if-flag false true next s e = refl
  settle_if-flag false false next s e = rw e refl

  forward_if-flag : (r l : Bool) (s : Session fl) → s.status ≡ running → Says (forward_if fl r l s)
  unfolding forward_if fail
  forward_if-flag true l s e = rw e refl
  forward_if-flag false true s e = refl
  forward_if-flag false false s e = rw e refl

  put_result-ends :
      (b : Bool) (peak : fl.F) (s : Session fl) → is_running (put_result fl b peak s).status ≡ false
  unfolding put_result
  put_result-ends true peak s = refl
  put_result-ends false peak s = refl

  conclude_if-ends : (b : Bool) (s : Session fl) → is_running (conclude_if fl b s).status ≡ false
  unfolding conclude_if conclude fail
  conclude_if-ends true s = refl
  conclude_if-ends false s = put_result-ends _ _ s

  finish_if-ends :
      (b : Bool) (g : Gaps fl) (s : Session fl) → is_running (finish_if fl b g s).status ≡ false
  unfolding finish_if fail
  finish_if-ends true g s = refl
  finish_if-ends false g s = conclude_if-ends _ _

  reverse_if-flag : (r l : Bool) (s : Session fl) → s.status ≡ running → Says (reverse_if fl r l s)
  unfolding reverse_if fail finish
  reverse_if-flag true l s e = rw (finish_if-ends _ _ s) refl
  reverse_if-flag false true s e = refl
  reverse_if-flag false false s e = rw e refl

  run_phase-flag :
      (p : Phase) (speed dtheta enc iq : fl.F) (s : Session fl)
      → s.status ≡ running
      → Says (run_phase fl p speed dtheta enc iq s)
  unfolding run_phase accumulate_forward accumulate_reverse
  run_phase-flag forward_settle speed dtheta enc iq s e = settle_if-flag _ _ _ s e
  run_phase-flag reverse_settle speed dtheta enc iq s e = settle_if-flag _ _ _ s e
  run_phase-flag forward_record speed dtheta enc iq s e = forward_if-flag _ _ _ e
  run_phase-flag reverse_record speed dtheta enc iq s e = reverse_if-flag _ _ _ e

  -- The step of a running session returns true exactly where the session no longer runs after it.
  pub step_flag :
      (dt_s enc iq : fl.F) (s : Session fl)
      → s.status ≡ running
      → (step fl dt_s enc iq s).1 ≡ not (is_running (step fl dt_s enc iq s).0.status)
  unfolding step step_if observe
  step_flag dt_s enc iq s e = rw (ap is_running e) (run_phase-flag s.phase _ _ enc iq _ e)
