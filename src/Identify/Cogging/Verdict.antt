-- ===== src/Identify/Cogging/Verdict.antt =====
-- What a cogging session ends with.
use spcd_actuator.Prelude.{
  ℕ, ◌<◌, ◌≡◌, ◌⊎◌, inl, inr, refl, sym, ap, ◌∙◌, Bool, true, false, if◌then◌else◌, ltb, get_or,
  length, length-set, length-replicate, List, [], ◌∷◌,
}
use mathlib.Core.Path.{subst}
use spcd_actuator.Floats.{Floats}
use spcd_actuator.Identify.Cogging.Gaps.{Bin, Gaps, empty_bin, average_bins}
use spcd_actuator.Identify.Cogging.Session.{
  Session, done, failed, table_size, fail, put_result, conclude, conclude_if, finish_if, finish,
  settle_if, forward_if, reverse_if, run_phase, step_if, step, Options, Phase, forward_settle,
  forward_record, reverse_settle, reverse_record, start, accumulate_forward, accumulate_reverse,
  observe,
}
use spcd_actuator.Identify.Cogging.Count.{length-average_bins}
use spcd_actuator.Identify.Cogging.Full.{averages_fill, length-fill_passes}
use spcd_actuator.Identify.Cogging.Means.{
  positive, covered_count, HasMean, valid_count-average_bins, filled-HasMean,
}

module _ (fl : Floats) where
  put_result_done :
      (b : Bool) (peak : fl.F) (s : Session fl) → (put_result fl b peak s).status ≡ done
  unfolding put_result
  put_result_done true peak s = refl
  put_result_done false peak s = refl

  conclude_if_done : (b : Bool) (s : Session fl) → b ≡ false → (conclude_if fl b s).status ≡ done
  unfolding conclude_if conclude
  conclude_if_done true s e = cc
  conclude_if_done false s e = put_result_done _ _ s

  -- The bins of a session that was concluded.
  bins-put_result :
      (b : Bool) (peak : fl.F) (s : Session fl) → (put_result fl b peak s).bins ≡ s.bins
  unfolding put_result
  bins-put_result true peak s = refl
  bins-put_result false peak s = refl

  bins-conclude_if : (b : Bool) (s : Session fl) → (conclude_if fl b s).bins ≡ s.bins
  unfolding conclude_if conclude fail
  bins-conclude_if true s = refl
  bins-conclude_if false s = bins-put_result _ _ s

  -- What the end of a session gives for a bin.
  abbrev Verdict : Session fl → ℕ → Session fl → Type 0
  Verdict s j t =
      (t.status ≡ (if ltb (covered_count fl s) 768 then failed else done))
      × ((ltb (covered_count fl s) 768 ≡ true)
          ⊎ HasMean fl s j (get_or t.bins j (empty_bin fl)).sum0)

  finish_if-Verdict :
      (b : Bool) (s : Session fl) (j : ℕ)
      → length s.bins ≡ table_size
      → j < table_size
      → ltb (covered_count fl s) 768 ≡ b
      → Verdict s j (finish_if fl b (average_bins fl s.options.min_count_per_bin s.bins) s)
  unfolding finish_if fail
  finish_if-Verdict true s j n u e = (rw e refl, inl e)
  finish_if-Verdict false s j n u e = (
    conclude_if_done _ _ (
          averages_fill fl table_size s.options.min_count_per_bin s.bins (sym n) (
            subst (λ c. 0 < c) (sym (valid_count-average_bins fl _ s.bins))
              (positive (covered_count fl s) e)))
        ∙ chosen _ e,
    inr (
        subst (λ (bs : List (Bin fl)). HasMean fl s j (get_or bs j (empty_bin fl)).sum0)
          (sym (bins-conclude_if _ _)) (filled-HasMean fl s j n u e)),
  )
    where
      chosen : (b : Bool) → b ≡ false → done ≡ (if b then failed else done)
      chosen b f = rw f refl

  finish-Verdict :
      (s : Session fl) (j : ℕ)
      → length s.bins ≡ table_size
      → j < table_size
      → Verdict s j (finish fl s)
  unfolding finish
  finish-Verdict s j n u =
      finish_if-Verdict _ s j n u
        (ap (λ c. ltb c 768) (sym (valid_count-average_bins fl s.options.min_count_per_bin s.bins)))

  -- Every branch of a session keeps the number of its bins.
  length-put_result :
      (b : Bool) (peak : fl.F) (s : Session fl)
      → length (put_result fl b peak s).bins ≡ length s.bins
  unfolding put_result
  length-put_result true peak s = refl
  length-put_result false peak s = refl

  length-conclude_if :
      (b : Bool) (s : Session fl) → length (conclude_if fl b s).bins ≡ length s.bins
  unfolding conclude_if conclude fail
  length-conclude_if true s = refl
  length-conclude_if false s = length-put_result _ _ s

  length-finish_if :
      (b : Bool) (g : Gaps fl) (s : Session fl) → length (finish_if fl b g s).bins ≡ length g.bins
  unfolding finish_if fail
  length-finish_if true g s = refl
  length-finish_if false g s = length-conclude_if _ _ ∙ length-fill_passes fl table_size 4 g

  length-finish : (s : Session fl) → length (finish fl s).bins ≡ length s.bins
  unfolding finish
  length-finish s =
      length-finish_if _ _ s ∙ length-average_bins fl s.options.min_count_per_bin s.bins

  -- A recording step, forward or in reverse.
  length-put :
      (b : Bool) (bins other : List (Bin fl))
      → length other ≡ length bins
      → length (if b then other else bins) ≡ length bins
  length-put true bins other h = h
  length-put false bins other h = refl

  length-settle_if :
      (r l : Bool) (next : Phase) (s : Session fl)
      → length (settle_if fl r l next s).0.bins ≡ length s.bins
  unfolding settle_if fail
  length-settle_if true l next s = refl
  length-settle_if false true next s = refl
  length-settle_if false false next s = refl

  length-forward_if :
      (r l : Bool) (s : Session fl) → length (forward_if fl r l s).0.bins ≡ length s.bins
  unfolding forward_if fail
  length-forward_if true l s = refl
  length-forward_if false true s = refl
  length-forward_if false false s = refl

  length-reverse_if :
      (r l : Bool) (s : Session fl) → length (reverse_if fl r l s).0.bins ≡ length s.bins
  unfolding reverse_if fail
  length-reverse_if true l s = length-finish s
  length-reverse_if false true s = refl
  length-reverse_if false false s = refl

  length-run_phase :
      (p : Phase) (speed dtheta enc iq : fl.F) (s : Session fl)
      → length (run_phase fl p speed dtheta enc iq s).0.bins ≡ length s.bins
  unfolding run_phase accumulate_forward accumulate_reverse
  length-run_phase forward_settle speed dtheta enc iq s = length-settle_if _ _ _ s
  length-run_phase reverse_settle speed dtheta enc iq s = length-settle_if _ _ _ s
  length-run_phase forward_record speed dtheta enc iq s =
      length-forward_if _ _ _ ∙ length-put _ s.bins _ (length-set s.bins _ _)
  length-run_phase reverse_record speed dtheta enc iq s =
      length-reverse_if _ _ _ ∙ length-put _ s.bins _ (length-set s.bins _ _)

  length-step_if :
      (b : Bool) (dt_s enc iq : fl.F) (s : Session fl)
      → length (step_if fl b dt_s enc iq s).0.bins ≡ length s.bins
  unfolding step_if observe
  length-step_if true dt_s enc iq s = length-run_phase s.phase _ _ enc iq _
  length-step_if false dt_s enc iq s = refl

  -- The steps of a session, each with the time, the angle and the current.
  unfoldable pub run : List (fl.F × (fl.F × fl.F)) → Session fl → Session fl
  run [] s = s
  run ((dt_s, (enc, iq)) ∷ is) s = run is (step fl dt_s enc iq s).0

  length-run :
      (is : List (fl.F × (fl.F × fl.F))) (s : Session fl) → length (run is s).bins ≡ length s.bins
  unfolding run step
  length-run [] s = refl
  length-run ((dt_s, (enc, iq)) ∷ is) s =
      length-run is (step fl dt_s enc iq s).0 ∙ length-step_if _ _ enc iq s

  length-start : (o : Options fl) (s : Session fl) → length (start fl o s).bins ≡ table_size
  unfolding start
  length-start o s = length-replicate table_size (empty_bin fl)

  -- After `Start` and any steps, the end of a session fails exactly where fewer than 768 of the 1024
  -- bins have at least the least count of samples in both directions, and is done otherwise. Where it
  -- is done, every bin that has the least count in both directions holds the mean of its own two
  -- averages, and every other bin holds that mean of some bin that has.
  pub finish_lem :
      (o : Options fl) (is : List (fl.F × (fl.F × fl.F))) (s : Session fl) (j : ℕ)
      → j < table_size
      → let t = run is (start fl o s) in
        ((finish fl t).status ≡ (if ltb (covered_count fl t) 768 then failed else done))
        × ((ltb (covered_count fl t) 768 ≡ true)
            ⊎ HasMean fl t j (get_or (finish fl t).bins j (empty_bin fl)).sum0)
  finish_lem o is s j u = finish-Verdict _ j (length-run is (start fl o s) ∙ length-start o s) u
