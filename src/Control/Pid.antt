-- ===== src/Control/Pid.antt =====
-- fw/math/inc/math/foc/pi.h and fw/math/inc/math/servo_mode/pid.h: the controllers with an integral.
use spcd_actuator.Prelude.{◌&&◌, not, if◌then◌else◌}
use spcd_actuator.Floats.{Floats}
use spcd_actuator.Link.Commands.{quiet_nan}

-- `PID::Config`; the sign is that of the command.
pub record Config (fl : Floats) : Type 0 where
  pub kp : fl.F
  pub ki : fl.F
  pub kd : fl.F
  pub iratelimit : fl.F
  pub ilimit : fl.F
  pub max_desired_rate : fl.F
  pub sign : fl.F

-- `PID::State`, which the one of `SimplePI` is a part of.
pub record State (fl : Floats) : Type 0 where
  pub integral : fl.F
  pub desired : fl.F
  pub error : fl.F
  pub error_rate : fl.F
  pub p : fl.F
  pub d : fl.F
  pub pd : fl.F
  pub command : fl.F

-- `PID::ApplyOptions`
pub record Scales (fl : Floats) : Type 0 where
  pub kp_scale : fl.F
  pub kd_scale : fl.F
  pub ilimit_scale : fl.F

module _ (fl : Floats) where
  -- `Limit`
  unfoldable pub limit : fl.F → fl.F → fl.F → fl.F
  limit a lo hi = if fl.lt a lo then lo else if fl.lt hi a then hi else a

  -- `Clear`
  unfoldable pub clear : State fl
  clear = record {
    integral = fl.lit 0 0;
    desired = quiet_nan fl;
    error = fl.lit 0 0;
    error_rate = fl.lit 0 0;
    p = fl.lit 0 0;
    d = fl.lit 0 0;
    pd = fl.lit 0 0;
    command = fl.lit 0 0;
  }

  -- The desired value after the limit of its rate.
  unfoldable pub follow : fl.F → State fl → fl.F → fl.F → fl.F
  follow max_desired_rate s input_desired period_s =
      let max_step = fl.mul max_desired_rate period_s in
      if not (fl.eq max_desired_rate (fl.lit 0 0)) && fl.is_finite s.desired
      then fl.add s.desired (limit (fl.sub input_desired s.desired) (fl.neg max_step) max_step)
      else input_desired

  -- `SimplePI::Apply`
  unfoldable pub apply_pi : fl.F → fl.F → fl.F → fl.F → fl.F → fl.F → State fl → State fl
  apply_pi kp ki max_desired_rate measured input_desired period_s s =
      let desired = follow max_desired_rate s input_desired period_s in
      let error = fl.sub measured desired in
      let integral = fl.add s.integral (fl.mul (fl.mul error ki) period_s) in
      let p = fl.mul kp error in
      record s {
        desired = desired;
        error = error;
        integral = integral;
        p = p;
        command = fl.mul (fl.neg (fl.lit 1 0)) (fl.add p integral);
      }

  -- `SimplePI::SetIntegralForOutput`
  unfoldable pub set_integral_for_output : fl.F → fl.F → State fl → State fl
  set_integral_for_output kp target_command s = record s {
    integral = fl.sub (fl.neg target_command) (fl.mul kp s.error);
  }

  -- The desired rate of `PID::Apply`, and what it adds to the integral.
  unfoldable pub follow_rate : Config fl → State fl → fl.F → fl.F
  follow_rate c s input_desired_rate =
      if not (fl.eq c.max_desired_rate (fl.lit 0 0)) && fl.is_finite s.desired
      then limit input_desired_rate (fl.neg c.max_desired_rate) c.max_desired_rate
      else input_desired_rate

  unfoldable pub integral_step : Config fl → fl.F → fl.F → fl.F
  integral_step c error period_s =
      let step = fl.mul (fl.mul error c.ki) period_s in
      let max_i_update = fl.mul c.iratelimit period_s in
      if fl.lt (fl.lit 0 0) c.iratelimit
      then limit step (fl.neg max_i_update) max_i_update
      else step

  -- `PID::Apply`; the command is that of the state.
  unfoldable pub apply_pid :
      Config fl → Scales fl → fl.F → fl.F → fl.F → fl.F → fl.F → State fl → State fl
  apply_pid c o measured input_desired measured_rate input_desired_rate period_s s =
      let desired = follow c.max_desired_rate s input_desired period_s in
      let desired_rate = follow_rate c s input_desired_rate in
      let error = fl.sub measured desired in
      let error_rate = fl.sub measured_rate desired_rate in
      let ilimit = fl.mul c.ilimit o.ilimit_scale in
      let integral =
        limit (fl.add s.integral (integral_step c error period_s)) (fl.neg ilimit) ilimit in
      let p = fl.mul (fl.mul o.kp_scale c.kp) error in
      let d = fl.mul (fl.mul o.kd_scale c.kd) error_rate in
      let pd = fl.add p d in
      record {
        integral = integral;
        desired = desired;
        error = error;
        error_rate = error_rate;
        p = p;
        d = d;
        pd = pd;
        command = fl.mul c.sign (fl.add pd integral);
      }
