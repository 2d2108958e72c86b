-- ===== src/Identify/Sweep.antt =====
-- What fw/math/inc/math/calibration/r_ident.h and bemf_ident.h share: a sweep over several points, each
-- with a time to settle and a window of samples, and a fit of a line through the origin. What a sample
-- and a point are is a parameter.
use spcd_actuator.Prelude.{ℕ, ◌+◌, Bool, true, false, ◌||◌, not, if◌then◌else◌, ltb, leb, u8}
use spcd_actuator.Floats.{Floats}

-- `State`
pub data State : Type 0 where
  idle running done failed : State

abbrev pub is_running : State → Bool
is_running running = true
is_running _ = false

abbrev pub is_done : State → Bool
is_done done = true
is_done _ = false

-- The sums of the fit.
pub record Fit (fl : Floats) : Type 0 where
  pub sxy : fl.F
  pub sxx : fl.F
  pub syy : fl.F
  pub points_used : ℕ

-- `Result`, with the fitted slope.
pub record Result (fl : Floats) : Type 0 where
  pub slope : fl.F
  pub r2 : fl.F
  pub points_used : ℕ
  pub ok : Bool

-- `Options`: the top of the sweep, its points, the times of a point, the tolerance of a sample, and the
-- known resistance, which the identification of the resistance itself has not.
pub record Options (fl : Floats) : Type 0 where
  pub top : fl.F
  pub n_points : ℕ
  pub settle_s : fl.F
  pub sample_s : fl.F
  pub tolerance : fl.F
  pub resistance_ohm : fl.F

pub record Session (fl : Floats) (P : Type 0) : Type 0 where
  pub options : Options fl
  pub state : State
  pub point_idx : ℕ
  pub elapsed_s : fl.F
  pub point : P
  pub fit : Fit fl
  pub result : Result fl

-- What differs: the least top of the sweep, the empty sums of a point, the sums with a sample, and the
-- fit with a point.
pub record Kind (fl : Floats) (P : Type 0) (M : Type 0) : Type 0 where
  pub least_top : fl.F
  pub no_samples : P
  pub gather : Options fl → ℕ → M → P → P
  pub add_point : Options fl → P → Fit fl → Fit fl

-- `options.n_points` of a session that is started.
unfoldable pub clamp_points : ℕ → ℕ
clamp_points n = if ltb n 3 then 3 else if ltb 8 n then 8 else n

unfoldable pub at_least : (fl : Floats) → fl.F → fl.F → fl.F
at_least fl bound x = if fl.lt x bound then bound else x

-- The time of a point after a step.
unfoldable pub time_after : (fl : Floats) → fl.F → fl.F → fl.F
time_after fl elapsed_s dt_s = fl.add elapsed_s (at_least fl (fl.lit 1 7) dt_s)

module _ {fl : Floats} where
  abbrev pub no_fit : Fit fl
  no_fit = record { sxy = fl.lit 0 0; sxx = fl.lit 0 0; syy = fl.lit 0 0; points_used = 0 }

  abbrev pub no_result : Result fl
  no_result = record { slope = fl.lit 0 0; r2 = fl.lit 0 0; points_used = 0; ok = false }

  -- `TargetCurrent`, `TargetSpeed`
  unfoldable pub target : Options fl → ℕ → fl.F
  target o point_idx = fl.mul o.top (fl.div (fl.of_u32 (point_idx + 1)) (fl.of_u32 o.n_points))

  -- Is a value inside the tolerance of the point's target?
  unfoldable pub is_near : Options fl → ℕ → fl.F → Bool
  is_near o point_idx x =
      let err = fl.sub x (target o point_idx) in
      fl.le (if fl.le (fl.lit 0 0) err then err else fl.neg err) o.tolerance

  -- The quality of the fit, from 0 to 1.
  unfoldable pub quality : Fit fl → fl.F
  quality f =
      let r2 =
        if fl.lt (fl.lit 1 9) f.syy
        then fl.div (fl.mul f.sxy f.sxy) (fl.mul f.sxx f.syy)
        else fl.lit 0 0 in
      let above = if fl.lt r2 (fl.lit 0 0) then fl.lit 0 0 else r2 in
      if fl.lt (fl.lit 1 0) above then fl.lit 1 0 else above

  -- Does a step end the point?
  unfoldable pub is_over : Options fl → fl.F → Bool
  is_over o elapsed_s = not (fl.lt elapsed_s (fl.add o.settle_s o.sample_s))

  module _ {P : Type 0} where
    -- `Finish`, by whether there are too few points or too little to fit.
    unfoldable pub finish_if : Bool → Session fl P → Session fl P
    finish_if true s = record s {
      state = failed;
      result = record s.result { points_used = s.fit.points_used; ok = false };
    }
    finish_if false s = record s {
      state = done;
      result = record {
        slope = fl.div s.fit.sxy s.fit.sxx;
        r2 = quality s.fit;
        points_used = s.fit.points_used;
        ok = true;
      };
    }

    unfoldable pub finish : Session fl P → Session fl P
    finish s = finish_if (ltb s.fit.points_used 3 || fl.lt s.fit.sxx (fl.lit 1 6)) s

    -- The end of `Step` after a point, by whether it was the last.
    unfoldable pub go_on : Bool → Session fl P → Session fl P × Bool
    go_on true s = (finish s, true)
    go_on false s = (s, false)

    -- `Stop`
    unfoldable pub stop : Session fl P → Session fl P
    stop s =
        if is_running s.state
        then record s { state = failed; result = record s.result { ok = false } }
        else s

    -- The set point, 0 where no session runs: `id_cmd_A`, `velocity_cmd_mech_rad_s`.
    unfoldable pub command : Session fl P → fl.F
    command s = if is_running s.state then target s.options s.point_idx else fl.lit 0 0

    -- `progress_permille`
    unfoldable pub progress_permille : Session fl P → ℕ
    progress_permille s =
        let per_point = fl.add s.options.settle_s s.options.sample_s in
        let spent = fl.add (fl.mul (fl.of_u32 s.point_idx) per_point) s.elapsed_s in
        let total = fl.mul (fl.of_u32 s.options.n_points) per_point in
        let p = if fl.lt (fl.lit 1 6) total then fl.div spent total else fl.lit 0 0 in
        let capped = if fl.lt (fl.lit 1 0) p then fl.lit 1 0 else p in
        if is_done s.state
        then 1000
        else if not (is_running s.state)
        then 0
        else fl.to_u16 (fl.mul capped (fl.lit 1000 0))

  module _ {P M : Type 0} (k : Kind fl P M) where
    -- `Start`
    unfoldable pub start : Options fl → Session fl P
    start o = record {
      options = record o {
        n_points = clamp_points o.n_points;
        top = at_least fl k.least_top o.top;
        settle_s = at_least fl (fl.lit 5 2) o.settle_s;
        sample_s = at_least fl (fl.lit 5 2) o.sample_s;
      };
      state = running;
      point_idx = 0;
      elapsed_s = fl.lit 0 0;
      point = k.no_samples;
      fit = no_fit;
      result = no_result;
    }

    -- The end of a point in `Step`.
    unfoldable pub count_point : Session fl P → Session fl P
    count_point s = record s {
      fit = k.add_point s.options s.point s.fit;
      point_idx = u8 (s.point_idx + 1);
      elapsed_s = fl.lit 0 0;
      point = k.no_samples;
    }

    unfoldable pub end_point : Session fl P → Session fl P × Bool
    end_point s = let next = count_point s in go_on (leb s.options.n_points next.point_idx) next

    -- The time and the sample of a step.
    unfoldable pub take_sample : fl.F → M → Session fl P → Session fl P
    take_sample dt_s m s =
        let elapsed_s = time_after fl s.elapsed_s dt_s in
        record s {
          elapsed_s = elapsed_s;
          point =
              if fl.le s.options.settle_s elapsed_s
              then k.gather s.options s.point_idx m s.point
              else s.point;
        }

    -- `Step`, by whether the point is over and whether the session runs.
    unfoldable pub step_over : Bool → Session fl P → Session fl P × Bool
    step_over true s = end_point s
    step_over false s = (s, false)

    unfoldable pub step_if : Bool → fl.F → M → Session fl P → Session fl P × Bool
    step_if true dt_s m s =
        let sampled = take_sample dt_s m s in
        step_over (is_over s.options sampled.elapsed_s) sampled
    step_if false dt_s m s = (s, false)

    unfoldable pub step : fl.F → M → Session fl P → Session fl P × Bool
    step dt_s m s = step_if (is_running s.state) dt_s m s
