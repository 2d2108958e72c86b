-- ===== src/Encoder/Pll.antt =====
-- fw/math/inc/math/servo_mode/encoder_pll.h: the PLL that tracks the mechanical angle.
pub mod Bounds
use spcd_actuator.Prelude.{ℕ, ◌+◌, Bool, true, false, ◌&&◌, ◌||◌, if◌then◌else◌, ltb}
use spcd_actuator.Floats.{Floats}
use spcd_actuator.Motor.Start.{two_pi, wrap_zero_to_two_pi, wrap_neg_pi_to_pi}

-- `EncoderPll::Options`
pub record Options (fl : Floats) : Type 0 where
  pub pll_filter_hz : fl.F
  pub pole_pairs : fl.F
  pub max_velocity_mech_rad_s : fl.F
  pub spike_error_rad : fl.F

-- The members of `EncoderPll`.
pub record Pll (fl : Floats) : Type 0 where
  pub options : Options fl
  pub kp : fl.F
  pub ki : fl.F
  pub filtered : fl.F
  pub integral : fl.F
  pub velocity : fl.F
  pub position : fl.F
  pub electrical_theta : fl.F
  pub electrical_correction_rad : fl.F
  pub theta_valid : Bool
  pub have_sample : Bool
  pub spike_count : ℕ
  pub last_spike_error_rad : fl.F
  pub last_spike_velocity_rad_s : fl.F

module _ (fl : Floats) where
  -- `RecomputeGains`
  unfoldable pub recompute_gains : Pll fl → Pll fl
  recompute_gains p =
      let w_n = fl.mul (fl.div p.options.pll_filter_hz (fl.lit 248 2)) (two_pi fl) in
      record p { kp = fl.mul (fl.mul (fl.lit 2 0) (fl.lit 1 0)) w_n; ki = fl.mul w_n w_n }

  -- `SetOptions`
  unfoldable pub set_options : Options fl → Pll fl → Pll fl
  set_options o p = recompute_gains (record p { options = o })

  -- `electrical_theta_` of the filtered angle.
  abbrev pub electrical_of : Options fl → fl.F → fl.F → fl.F
  electrical_of o filtered correction =
      wrap_zero_to_two_pi fl (fl.add (fl.mul filtered o.pole_pairs) correction)

  -- `Reset`
  unfoldable pub reset : fl.F → fl.F → Pll fl → Pll fl
  reset theta_mech_rad correction p =
      let filtered = wrap_zero_to_two_pi fl theta_mech_rad in
      record p {
        filtered = filtered;
        integral = fl.lit 0 0;
        velocity = fl.lit 0 0;
        position = filtered;
        electrical_correction_rad = correction;
        electrical_theta = electrical_of p.options filtered correction;
        theta_valid = true;
        have_sample = true;
      }

  -- `LimitVel`
  unfoldable pub limit_vel : fl.F → fl.F → fl.F
  limit_vel v max_v =
      if fl.lt max_v v then max_v else if fl.lt v (fl.neg max_v) then fl.neg max_v else v

  -- `NoteSpike` under its condition; the count saturates.
  unfoldable pub note_spike_if : Bool → fl.F → fl.F → Pll fl → Pll fl
  note_spike_if false abs_error velocity p = p
  note_spike_if true abs_error velocity p = record p {
    spike_count = if ltb p.spike_count 4294967295 then p.spike_count + 1 else p.spike_count;
    last_spike_error_rad = abs_error;
    last_spike_velocity_rad_s = velocity;
  }

  -- `ClearSpikeCount`
  unfoldable pub clear_spike_count : Pll fl → Pll fl
  clear_spike_count p = record p {
    spike_count = 0;
    last_spike_error_rad = fl.lit 0 0;
    last_spike_velocity_rad_s = fl.lit 0 0;
  }

  -- The greatest velocity of `Update`: a turn in eight samples, and that of the options.
  unfoldable pub max_vel : Options fl → fl.F → fl.F
  max_vel o dt_s =
      let turn = fl.div (fl.mul (two_pi fl) (fl.lit 125 3)) dt_s in
      let top = o.max_velocity_mech_rad_s in
      if fl.lt (fl.lit 0 0) top && fl.lt top turn then top else turn

  unfoldable pub is_spike : Options fl → fl.F → fl.F → fl.F → Bool
  is_spike o abs_error velocity top =
      (fl.lt (fl.lit 0 0) o.spike_error_rad && fl.le o.spike_error_rad abs_error)
      || (fl.lt top velocity || fl.lt velocity (fl.neg top))

  -- The rest of `Update` after the angle's error.
  unfoldable pub advance : fl.F → fl.F → fl.F → Pll fl → Pll fl
  advance error dt_s correction p =
      let integral = fl.add p.integral (fl.mul (fl.mul dt_s p.ki) error) in
      let velocity = fl.add integral (fl.mul p.kp error) in
      let top = max_vel p.options dt_s in
      let abs_error = if fl.le (fl.lit 0 0) error then error else fl.neg error in
      let noted = note_spike_if (is_spike p.options abs_error velocity top) abs_error velocity p in
      let cut = limit_vel velocity top in
      let filtered = wrap_zero_to_two_pi fl (fl.add p.filtered (fl.mul dt_s cut)) in
      record noted {
        integral = limit_vel integral top;
        velocity = cut;
        filtered = filtered;
        position = fl.add p.position (fl.mul cut dt_s);
        electrical_correction_rad = correction;
        electrical_theta = electrical_of p.options filtered correction;
        theta_valid = true;
      }

  -- `Update`, by whether there is a sample.
  unfoldable pub update_if : Bool → fl.F → fl.F → fl.F → Pll fl → Pll fl
  update_if false measured dt_s correction p = reset measured correction p
  update_if true measured dt_s correction p =
      advance (wrap_neg_pi_to_pi fl (fl.sub measured p.filtered)) dt_s correction p

  abbrev pub least_dt : fl.F → fl.F
  least_dt dt_s = if fl.lt dt_s (fl.lit 1 7) then fl.lit 1 7 else dt_s

  unfoldable pub update : fl.F → fl.F → fl.F → Pll fl → Pll fl
  update theta_mech_rad dt_s correction p =
      update_if p.have_sample (wrap_zero_to_two_pi fl theta_mech_rad) (least_dt dt_s) correction p

  -- `omega_elec`
  unfoldable pub omega_elec : Pll fl → fl.F
  omega_elec p = fl.mul p.velocity p.options.pole_pairs
