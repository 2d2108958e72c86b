-- ===== src/Control/Foc.antt =====
-- fw/math/inc/math/foc/transform.h, with the conversion of duties that modulator.h and controller.h
-- both have: the Park transforms and the balanced PWM.
pub mod Modulator
pub mod Controller
pub mod Bounds
pub mod Tests
use spcd_actuator.Prelude.{ℕ, if◌then◌else◌, Option, none, some}
use spcd_actuator.Floats.{Floats}

-- `SinCos`, and the values of `DqTransform` and `InverseDqTransform`
pub record SinCos (fl : Floats) : Type 0 where
  pub s : fl.F
  pub c : fl.F

pub record Dq (fl : Floats) : Type 0 where
  pub d : fl.F
  pub q : fl.F

pub record Phases (fl : Floats) : Type 0 where
  pub a : fl.F
  pub b : fl.F
  pub c : fl.F

-- `Duties` of the modulator and of the controller
pub record Duties : Type 0 where
  pub a_milli : ℕ
  pub b_milli : ℕ
  pub c_milli : ℕ

module _ (fl : Floats) where
  -- `kSqrt3_4`, `kSvpwmRatio`, and 2.0f / 3.0f
  abbrev pub sqrt3_4 : fl.F
  sqrt3_4 = fl.lit 86602540378 11

  abbrev pub svpwm_ratio : fl.F
  svpwm_ratio = fl.lit 115470053838 11

  abbrev pub two_thirds : fl.F
  two_thirds = fl.div (fl.lit 2 0) (fl.lit 3 0)

  -- `SinCosFromRadians`
  unfoldable pub sin_cos : fl.F → SinCos fl
  sin_cos theta_rad = record { s = fl.sin theta_rad; c = fl.cos theta_rad }

  -- The four products that both transforms are made of, ±sqrt3_4 * x - 0.5 * y.
  abbrev pub plus : fl.F → fl.F → fl.F
  plus x y = fl.sub (fl.mul sqrt3_4 x) (fl.mul (fl.lit 5 1) y)

  abbrev pub minus : fl.F → fl.F → fl.F
  minus x y = fl.sub (fl.mul (fl.neg sqrt3_4) x) (fl.mul (fl.lit 5 1) y)

  -- `DqTransform`
  unfoldable pub dq_transform : SinCos fl → fl.F → fl.F → fl.F → Dq fl
  dq_transform sc a b c = record {
    d =
        fl.mul two_thirds (
          fl.add (fl.add (fl.mul a sc.c) (fl.mul (plus sc.s sc.c) b)) (fl.mul (minus sc.s sc.c) c));
    q = fl.mul two_thirds (
        fl.sub (fl.sub (fl.mul (fl.neg sc.s) a) (fl.mul (minus sc.c sc.s) b))
          (fl.mul (plus sc.c sc.s) c));
  }

  -- `InverseDqTransform`
  unfoldable pub inverse_dq_transform : SinCos fl → fl.F → fl.F → Phases fl
  inverse_dq_transform sc d q = record {
    a = fl.sub (fl.mul sc.c d) (fl.mul sc.s q);
    b = fl.sub (fl.mul (plus sc.s sc.c) d) (fl.mul (minus sc.c sc.s) q);
    c = fl.sub (fl.mul (minus sc.s sc.c) d) (fl.mul (plus sc.c sc.s) q);
  }

  -- The least and the greatest of the phases, by the comparisons of the source.
  abbrev pub least : fl.F → fl.F → fl.F → fl.F
  least a b c = if fl.lt a b then (if fl.lt a c then a else c) else if fl.lt b c then b else c

  abbrev pub greatest : fl.F → fl.F → fl.F → fl.F
  greatest a b c = if fl.lt b a then (if fl.lt c a then a else c) else if fl.lt c b then b else c

  -- The lambda `clamp` of `FromPhaseVolts`
  unfoldable pub clamp : fl.F → fl.F → fl.F → fl.F
  clamp min_duty max_duty x =
      if fl.lt x min_duty then min_duty else if fl.lt max_duty x then max_duty else x

  -- The duties of phase voltages, centred.
  unfoldable pub balanced : Phases fl → fl.F → fl.F → fl.F → Phases fl
  balanced v bus_V min_duty max_duty =
      let inv_bus = fl.div (fl.lit 1 0) bus_V in
      let pa = fl.mul v.a inv_bus in
      let pb = fl.mul v.b inv_bus in
      let pc = fl.mul v.c inv_bus in
      let middle = fl.mul (fl.lit 5 1) (fl.add (least pa pb pc) (greatest pa pb pc)) in
      let offset = fl.sub middle (fl.lit 5 1) in
      record {
        a = clamp min_duty max_duty (fl.sub pa offset);
        b = clamp min_duty max_duty (fl.sub pb offset);
        c = clamp min_duty max_duty (fl.sub pc offset);
      }

  -- `BalancedPwm::FromPhaseVolts`, `none` where the bus is invalid
  unfoldable pub from_phase_volts : Phases fl → fl.F → fl.F → fl.F → Option (Phases fl)
  from_phase_volts v bus_V min_duty max_duty =
      if fl.le bus_V (fl.lit 1 3) then none else some (balanced v bus_V min_duty max_duty)

  -- `DutyToMilli`, before the conversion and with it
  unfoldable pub milli_of : fl.F → fl.F
  milli_of duty =
      let x = fl.add (fl.mul duty (fl.lit 1000 0)) (fl.lit 5 1) in
      let high = if fl.lt x (fl.lit 0 0) then fl.lit 0 0 else x in
      if fl.lt (fl.lit 1000 0) high then fl.lit 1000 0 else high

  unfoldable pub duty_to_milli : fl.F → ℕ
  duty_to_milli duty = fl.to_u16 (milli_of duty)

  abbrev pub to_duties : Phases fl → Duties
  to_duties p = record {
    a_milli = duty_to_milli p.a;
    b_milli = duty_to_milli p.b;
    c_milli = duty_to_milli p.c;
  }

  unfoldable pub duties_of : Option (Phases fl) → Option Duties
  duties_of none = none
  duties_of (some p) = some (to_duties p)
