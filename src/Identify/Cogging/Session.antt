-- ===== src/Identify/Cogging/Session.antt =====
-- cogging.h: `Start`, `Stop`, `Step` with its four phases, and `Finish`.
use spcd_actuator.Prelude.{
  ℕ, ◌+◌, ◌-◌, ◌*◌, ◌/◌, ◌%◌, ◌^◌, Bool, true, false, not, if◌then◌else◌, ltb, List, [], ◌∷◌, set,
  map, replicate,
}
use spcd_actuator.Floats.{Floats}
use spcd_actuator.Motor.Start.{two_pi, wrap_zero_to_two_pi, wrap_neg_pi_to_pi}
use spcd_actuator.Identify.Cogging.Gaps.{Bin, Gaps, empty_bin, average_bins, fill_passes, bin_at}

-- `State`, `Phase`
pub data Status : Type 0 where
  idle running done failed : Status

pub data Phase : Type 0 where
  forward_settle forward_record reverse_settle reverse_record : Phase

-- `Options` and `Result`; the table is its bytes
pub record Options (fl : Floats) : Type 0 where
  pub velocity_mech_rad_s : fl.F
  pub record_revs : fl.F
  pub min_count_per_bin : ℕ
  pub settle_timeout_s : fl.F
  pub record_timeout_s : fl.F
  pub speed_gate : fl.F

pub record Result (fl : Floats) : Type 0 where
  pub table : List ℕ
  pub scale : fl.F
  pub peak_A : fl.F
  pub ok : Bool

-- The members of `CoggingCal`.
pub record Session (fl : Floats) : Type 0 where
  pub options : Options fl
  pub status : Status
  pub phase : Phase
  pub phase_elapsed_s : fl.F
  pub travel : fl.F
  pub prev_enc : fl.F
  pub have_prev : Bool
  pub bins : List (Bin fl)
  pub result : Result fl

-- `kCoggingTableSize`
abbrev pub table_size : ℕ
table_size = 1024

abbrev pub is_running : Status → Bool
is_running running = true
is_running _ = false

module _ (fl : Floats) where
  abbrev pub empty_result : Result fl
  empty_result = record {
    table = replicate table_size 0;
    scale = fl.lit 0 0;
    peak_A = fl.lit 0 0;
    ok = false;
  }

  -- `Start`
  unfoldable pub start : Options fl → Session fl → Session fl
  start o s = record s {
    options = record o {
      velocity_mech_rad_s =
          if fl.lt o.velocity_mech_rad_s (fl.lit 1 1) then fl.lit 1 1 else o.velocity_mech_rad_s;
      record_revs = if fl.lt o.record_revs (fl.lit 5 1) then fl.lit 5 1 else o.record_revs;
      min_count_per_bin = if ltb o.min_count_per_bin 1 then 1 else o.min_count_per_bin;
    };
    phase = forward_settle;
    phase_elapsed_s = fl.lit 0 0;
    travel = fl.lit 0 0;
    prev_enc = fl.lit 0 0;
    have_prev = false;
    bins = replicate table_size (empty_bin fl);
    result = empty_result;
    status = running;
  }

  -- `Fail`, and `Stop`, which fails a running session
  unfoldable pub fail : Session fl → Session fl
  fail s = record s { result = record s.result { ok = false }; status = failed }

  unfoldable pub stop_if : Bool → Session fl → Session fl
  stop_if true s = fail s
  stop_if false s = s

  unfoldable pub stop : Session fl → Session fl
  stop s = stop_if (is_running s.status) s

  -- `velocity_cmd_mech_rad_s`, by the phase of a running session
  abbrev pub is_forward : Phase → Bool
  is_forward forward_settle = true
  is_forward forward_record = true
  is_forward reverse_settle = false
  is_forward reverse_record = false

  unfoldable pub velocity_command : Session fl → fl.F
  velocity_command s =
      let v = s.options.velocity_mech_rad_s in
      if not (is_running s.status) then fl.lit 0 0 else if is_forward s.phase then v else fl.neg v

  -- `BinOf`, and `Accumulate` for both directions
  unfoldable pub bin_of : fl.F → ℕ
  bin_of enc_mech_rad =
      let wrapped = wrap_zero_to_two_pi fl enc_mech_rad in
      fl.to_u32 (fl.mul wrapped (fl.div (fl.lit table_size 0) (two_pi fl))) % table_size

  unfoldable pub accumulate_forward : fl.F → fl.F → Session fl → Session fl
  accumulate_forward enc_mech_rad iq_cmd_A s =
      let i = bin_of enc_mech_rad in
      let b = bin_at fl s.bins i in
      record s {
        bins =
            if ltb b.count0 65535
            then set s.bins i (record b { sum0 = fl.add b.sum0 iq_cmd_A; count0 = b.count0 + 1 })
            else s.bins;
      }

  unfoldable pub accumulate_reverse : fl.F → fl.F → Session fl → Session fl
  accumulate_reverse enc_mech_rad iq_cmd_A s =
      let i = bin_of enc_mech_rad in
      let b = bin_at fl s.bins i in
      record s {
        bins =
            if ltb b.count1 65535
            then set s.bins i (record b { sum1 = fl.add b.sum1 iq_cmd_A; count1 = b.count1 + 1 })
            else s.bins;
      }

  -- The parts of `Finish` after the gaps are filled: the peak, and the table of bytes.
  unfoldable pub peak_of : List (Bin fl) → fl.F → fl.F
  peak_of [] peak = peak
  peak_of (b ∷ bs) peak =
      let a = if fl.le (fl.lit 0 0) b.sum0 then b.sum0 else fl.neg b.sum0 in
      peak_of bs (if fl.lt peak a then a else peak)

  -- A value in steps of the scale, as the byte of an int8_t between -127 and 127.
  unfoldable pub clamp_byte : ℕ → ℕ
  clamp_byte v =
      if ltb v (2 ^ 31)
      then (if ltb 127 v then 127 else v)
      else if ltb v (2 ^ 32 - 127)
      then 129
      else v % 256

  unfoldable pub quantize : fl.F → Bin fl → ℕ
  quantize inv_scale b =
      let q = fl.mul b.sum0 inv_scale in
      let rounded = if fl.le (fl.lit 0 0) q then fl.add q (fl.lit 5 1) else fl.sub q (fl.lit 5 1) in
      clamp_byte (fl.to_i32 rounded)

  unfoldable pub measured_result : fl.F → List (Bin fl) → Result fl
  measured_result peak bins =
      let scale = fl.div peak (fl.lit 127 0) in
      record {
        table = map (quantize (fl.div (fl.lit 1 0) scale)) bins;
        scale = scale;
        peak_A = peak;
        ok = true;
      }

  -- A result without measurable cogging has an empty table.
  unfoldable pub put_result : Bool → fl.F → Session fl → Session fl
  put_result true peak s = record s {
    result = record {
      table = replicate table_size 0;
      scale = fl.lit 0 0;
      peak_A = peak;
      ok = true;
    };
    status = done;
  }
  put_result false peak s = record s { result = measured_result peak s.bins; status = done }

  unfoldable pub conclude : Session fl → Session fl
  conclude s = let peak = peak_of s.bins (fl.lit 0 0) in put_result (fl.lt peak (fl.lit 1 4)) peak s

  -- `Finish`, by whether bins are missing after the passes, and before them
  unfoldable pub conclude_if : Bool → Session fl → Session fl
  conclude_if true s = fail s
  conclude_if false s = conclude s

  unfoldable pub finish_if : Bool → Gaps fl → Session fl → Session fl
  finish_if true g s = fail (record s { bins = g.bins })
  finish_if false g s =
      let filled = fill_passes fl table_size 4 g in
      conclude_if (ltb filled.valid_count table_size) (record s { bins = filled.bins })

  unfoldable pub finish : Session fl → Session fl
  finish s =
      let g = average_bins fl s.options.min_count_per_bin s.bins in
      finish_if (ltb g.valid_count (3 * table_size / 4)) g s

  -- The branches of `Step`: true where the session ends in this step
  unfoldable pub settle_if : Bool → Bool → Phase → Session fl → Session fl × Bool
  settle_if true late next s =
      (record s { phase = next; phase_elapsed_s = fl.lit 0 0; travel = fl.lit 0 0 }, false)
  settle_if false true next s = (fail s, true)
  settle_if false false next s = (s, false)

  unfoldable pub forward_if : Bool → Bool → Session fl → Session fl × Bool
  forward_if true late s =
      (record s { phase = reverse_settle; phase_elapsed_s = fl.lit 0 0 }, false)
  forward_if false true s = (fail s, true)
  forward_if false false s = (s, false)

  unfoldable pub reverse_if : Bool → Bool → Session fl → Session fl × Bool
  reverse_if true late s = (finish s, true)
  reverse_if false true s = (fail s, true)
  reverse_if false false s = (s, false)

  abbrev pub gate : Session fl → fl.F
  gate s = fl.mul s.options.speed_gate s.options.velocity_mech_rad_s

  abbrev pub target : Session fl → fl.F
  target s = fl.mul s.options.record_revs (two_pi fl)

  abbrev pub settles_late : Session fl → Bool
  settles_late s = fl.le s.options.settle_timeout_s s.phase_elapsed_s

  abbrev pub records_late : Session fl → Bool
  records_late s = fl.le s.options.record_timeout_s s.phase_elapsed_s

  -- The travel of a recording phase.
  abbrev pub add_travel : fl.F → Session fl → Session fl
  add_travel dtheta s = record s {
    travel = fl.add s.travel (if fl.le (fl.lit 0 0) dtheta then dtheta else fl.neg dtheta);
  }

  unfoldable pub run_phase : Phase → fl.F → fl.F → fl.F → fl.F → Session fl → Session fl × Bool
  run_phase forward_settle speed dtheta enc iq s =
      settle_if (fl.le (gate s) speed) (settles_late s) forward_record s
  run_phase forward_record speed dtheta enc iq s =
      let t = add_travel dtheta (accumulate_forward enc iq s) in
      forward_if (fl.le (target t) t.travel) (records_late t) t
  run_phase reverse_settle speed dtheta enc iq s =
      settle_if (fl.le speed (fl.neg (gate s))) (settles_late s) reverse_record s
  run_phase reverse_record speed dtheta enc iq s =
      let t = add_travel dtheta (accumulate_reverse enc iq s) in
      reverse_if (fl.le (target t) t.travel) (records_late t) t

  -- The angle since the last step, and what `Step` keeps of it
  unfoldable pub moved : fl.F → Session fl → fl.F
  moved enc s = if s.have_prev then wrap_neg_pi_to_pi fl (fl.sub enc s.prev_enc) else fl.lit 0 0

  unfoldable pub observe : fl.F → fl.F → Session fl → Session fl
  observe dt_s enc s = record s {
    prev_enc = enc;
    have_prev = true;
    phase_elapsed_s = fl.add s.phase_elapsed_s dt_s;
  }

  unfoldable pub step_if : Bool → fl.F → fl.F → fl.F → Session fl → Session fl × Bool
  step_if false dt_s enc iq s = (s, false)
  step_if true dt_s enc iq s =
      let dtheta = moved enc s in
      run_phase s.phase (fl.div dtheta dt_s) dtheta enc iq (observe dt_s enc s)

  unfoldable pub step : fl.F → fl.F → fl.F → Session fl → Session fl × Bool
  step dt_s enc_mech_rad iq_cmd_A s =
      let t = if fl.lt dt_s (fl.lit 1 7) then fl.lit 1 7 else dt_s in
      step_if (is_running s.status) t enc_mech_rad iq_cmd_A s
