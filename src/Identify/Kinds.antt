-- ===== src/Identify/Kinds.antt =====
-- The two identifications by a sweep: of the resistance (fw/math/inc/math/calibration/r_ident.h) and of
-- the back-EMF (bemf_ident.h).
use spcd_actuator.Prelude.{ℕ, ◌+◌, if◌then◌else◌, ltb, u8, u16}
use spcd_actuator.Floats.{Floats}
use spcd_actuator.Identify.Sweep.{Options, Fit, Kind, is_near}

-- `RIdentCal`: the sums of a point and a sample.
pub record CurrentPoint (fl : Floats) : Type 0 where
  pub sum_id : fl.F
  pub sum_vd : fl.F
  pub n : ℕ

pub record CurrentSample (fl : Floats) : Type 0 where
  pub id_A : fl.F
  pub vd_V : fl.F

-- `BemfIdentCal`: the sums of a point and a sample.
pub record SpeedPoint (fl : Floats) : Type 0 where
  pub sum_omega : fl.F
  pub sum_vq : fl.F
  pub sum_iq : fl.F
  pub n : ℕ

pub record SpeedSample (fl : Floats) : Type 0 where
  pub omega_rad_s : fl.F
  pub vq_V : fl.F
  pub iq_A : fl.F

module _ (fl : Floats) where
  unfoldable pub gather_current :
      Options fl → ℕ → CurrentSample fl → CurrentPoint fl → CurrentPoint fl
  gather_current o point_idx m p =
      if is_near o point_idx m.id_A
      then record {
        sum_id = fl.add p.sum_id m.id_A;
        sum_vd = fl.add p.sum_vd m.vd_V;
        n = u16 (p.n + 1);
      }
      else p

  -- The sums of the fit with the averages of a point, of which `x` and `y` are fitted.
  unfoldable pub add_average : fl.F → fl.F → Fit fl → Fit fl
  add_average x y f = record {
    sxy = fl.add f.sxy (fl.mul x y);
    sxx = fl.add f.sxx (fl.mul x x);
    syy = fl.add f.syy (fl.mul y y);
    points_used = u8 (f.points_used + 1);
  }

  -- `RIdentCal::FinishPoint`; `kMinSamplesPerPoint` is 20.
  unfoldable pub add_current_point : Options fl → CurrentPoint fl → Fit fl → Fit fl
  add_current_point o p f =
      let n = fl.of_u32 p.n in
      if ltb p.n 20 then f else add_average (fl.div p.sum_id n) (fl.div p.sum_vd n) f

  abbrev pub resistance_kind : Kind fl (CurrentPoint fl) (CurrentSample fl)
  resistance_kind = record {
    least_top = fl.lit 5 2;
    no_samples = record { sum_id = fl.lit 0 0; sum_vd = fl.lit 0 0; n = 0 };
    gather = gather_current;
    add_point = add_current_point;
  }

  unfoldable pub gather_speed : Options fl → ℕ → SpeedSample fl → SpeedPoint fl → SpeedPoint fl
  gather_speed o point_idx m p =
      if is_near o point_idx m.omega_rad_s
      then record {
        sum_omega = fl.add p.sum_omega m.omega_rad_s;
        sum_vq = fl.add p.sum_vq m.vq_V;
        sum_iq = fl.add p.sum_iq m.iq_A;
        n = u16 (p.n + 1);
      }
      else p

  -- `BemfIdentCal::FinishPoint`
  unfoldable pub add_speed_point : Options fl → SpeedPoint fl → Fit fl → Fit fl
  add_speed_point o p f =
      let n = fl.of_u32 p.n in
      let y = fl.sub (fl.div p.sum_vq n) (fl.mul o.resistance_ohm (fl.div p.sum_iq n)) in
      if ltb p.n 20 then f else add_average (fl.div p.sum_omega n) y f

  abbrev pub bemf_kind : Kind fl (SpeedPoint fl) (SpeedSample fl)
  bemf_kind = record {
    least_top = fl.lit 1 0;
    no_samples = record { sum_omega = fl.lit 0 0; sum_vq = fl.lit 0 0; sum_iq = fl.lit 0 0; n = 0 };
    gather = gather_speed;
    add_point = add_speed_point;
  }
