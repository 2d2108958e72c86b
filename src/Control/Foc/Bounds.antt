-- ===== src/Control/Foc/Bounds.antt =====
-- Whole runs of the current controller and its limits, and the duties that both modulators give.
use spcd_actuator.Prelude.{◌≡◌, Bool, true, false, Option, List, [], ◌∷◌}
use spcd_actuator.Floats.{Floats}
use spcd_actuator.Control.Pid.{clear}
use spcd_actuator.Control.Bounds.{IsNotOutside, limit-IsNotOutside}
use spcd_actuator.Control.Foc.Controller.{
  Options, Command, Foc, sync_pi_config, clamp_current, start, stop, set_refs, set_theta_rate,
  set_omega, max_voltage, observe, settle, control, turn, step_if, step,
}

-- The operations of `FocController` that the control interrupt and the starts of a mode make.
pub data Operation (fl : Floats) : Type 0 where
  do_start : Command fl → Operation fl
  do_stop : Operation fl
  do_set_refs do_set_omega : fl.F → fl.F → Operation fl
  do_set_theta_rate : fl.F → Operation fl
  -- the time, the encoder's angle, and the currents of the phases
  do_step : fl.F → Option fl.F → fl.F → fl.F → fl.F → Operation fl

unfoldable pub operate : (fl : Floats) → Operation fl → Foc fl → Foc fl
operate fl (do_start c) f = start fl c f
operate fl do_stop f = stop fl f
operate fl (do_set_refs id_A iq_A) f = set_refs fl id_A iq_A f
operate fl (do_set_omega elec rotor) f = set_omega fl elec rotor f
operate fl (do_set_theta_rate rate) f = set_theta_rate fl rate f
operate fl (do_step dt_s given ia ib ic) f = (step fl dt_s given ia ib ic f).0

unfoldable pub run : (fl : Floats) → List (Operation fl) → Foc fl → Foc fl
run fl [] f = f
run fl (o ∷ os) f = run fl os (operate fl o f)

-- Not outside the bound with both signs.
abbrev pub IsUpTo : (fl : Floats) → fl.F → fl.F → Type 0
IsUpTo fl top x = IsNotOutside fl (fl.neg top) top x

-- The controller has the options, its references are not outside the greatest current, and the
-- integrals of both axes not outside the greatest voltage.
pub record IsBounded (fl : Floats) (o : Options fl) (f : Foc fl) : Type 0 where
  pub same : f.options ≡ o
  pub id_bound : IsUpTo fl o.max_current_A f.id_ref
  pub iq_bound : IsUpTo fl o.max_current_A f.iq_ref
  pub d_bound : IsUpTo fl (max_voltage fl o) f.pi_d.integral
  pub q_bound : IsUpTo fl (max_voltage fl o) f.pi_q.integral

module _ (fl : Floats) (irreflexive : (x : fl.F) → fl.lt x x ≡ false) (o : Options fl)
    (current : fl.lt o.max_current_A (fl.neg o.max_current_A) ≡ false)
    (voltage : fl.lt (max_voltage fl o) (fl.neg (max_voltage fl o)) ≡ false)
    (zero_voltage : IsUpTo fl (max_voltage fl o) (fl.lit 0 0)) where
  clamp_current-IsUpTo :
      (p : Options fl) (i : fl.F) → p ≡ o → IsUpTo fl o.max_current_A (clamp_current fl p i)
  unfolding clamp_current
  clamp_current-IsUpTo p i e = rw e (limit-IsNotOutside fl irreflexive _ _ _ current)

  settle-IsUpTo :
      (p : Options fl) (applied wanted ff : fl.F)
      (c : spcd_actuator.Control.Foc.Controller.PiConfig fl)
      (s : spcd_actuator.Control.Pid.State fl)
      → p ≡ o
      → IsUpTo fl (max_voltage fl o) (settle fl (max_voltage fl p) applied wanted ff c s).integral
  unfolding settle
  settle-IsUpTo p applied wanted ff c s e = rw e (limit-IsNotOutside fl irreflexive _ _ _ voltage)

  turn-IsBounded :
      (dt_s : fl.F) (given : Option fl.F) (ia ib ic : fl.F) (f : Foc fl)
      → IsBounded fl o f
      → IsBounded fl o (turn fl dt_s given ia ib ic f)
  unfolding turn control observe
  turn-IsBounded dt_s given ia ib ic f h = record {
    same = h.same;
    id_bound = h.id_bound;
    iq_bound = h.iq_bound;
    d_bound = settle-IsUpTo _ _ _ _ _ _ h.same;
    q_bound = settle-IsUpTo _ _ _ _ _ _ h.same;
  }

  step_if-IsBounded :
      (b : Bool) (dt_s : fl.F) (given : Option fl.F) (ia ib ic : fl.F) (f : Foc fl)
      → IsBounded fl o f
      → IsBounded fl o (step_if fl b dt_s given ia ib ic f).0
  unfolding step_if
  step_if-IsBounded false dt_s given ia ib ic f h = h
  step_if-IsBounded true dt_s given ia ib ic f h = turn-IsBounded _ given ia ib ic f h

  operate-IsBounded :
      (c : Operation fl) (f : Foc fl) → IsBounded fl o f → IsBounded fl o (operate fl c f)
  unfolding operate start sync_pi_config stop set_refs set_omega set_theta_rate step clear
  operate-IsBounded (do_start c) f h = record {
    same = h.same;
    id_bound = clamp_current-IsUpTo f.options _ h.same;
    iq_bound = clamp_current-IsUpTo f.options _ h.same;
    d_bound = zero_voltage;
    q_bound = zero_voltage;
  }
  operate-IsBounded do_stop f h = record {
    same = h.same;
    id_bound = h.id_bound;
    iq_bound = h.iq_bound;
    d_bound = zero_voltage;
    q_bound = zero_voltage;
  }
  operate-IsBounded (do_set_refs id_A iq_A) f h = record {
    same = h.same;
    id_bound = clamp_current-IsUpTo f.options _ h.same;
    iq_bound = clamp_current-IsUpTo f.options _ h.same;
    d_bound = h.d_bound;
    q_bound = h.q_bound;
  }
  operate-IsBounded (do_set_omega elec rotor) f h = record {
    same = h.same;
    id_bound = h.id_bound;
    iq_bound = h.iq_bound;
    d_bound = h.d_bound;
    q_bound = h.q_bound;
  }
  operate-IsBounded (do_set_theta_rate rate) f h = record {
    same = h.same;
    id_bound = h.id_bound;
    iq_bound = h.iq_bound;
    d_bound = h.d_bound;
    q_bound = h.q_bound;
  }
  operate-IsBounded (do_step dt_s given ia ib ic) f h =
      step_if-IsBounded f.active dt_s given ia ib ic f h

  -- Where a float is not less than itself, the greatest current and the greatest voltage are not
  -- negative and 0 is not outside the voltage: if the references are neither below nor above the
  -- greatest current of both signs, and the integrals of both axes neither below nor above the
  -- greatest voltage of both signs, it is so after every run of starts, stops, new references and
  -- steps of the current controller. A float that is not a number is neither below nor above, and
  -- may stand in any of them.
  pub run-IsBounded :
      (os : List (Operation fl)) (f : Foc fl) → IsBounded fl o f → IsBounded fl o (run fl os f)
  unfolding run
  run-IsBounded [] f h = h
  run-IsBounded (c ∷ os) f h = run-IsBounded os (operate fl c f) (operate-IsBounded c f h)
