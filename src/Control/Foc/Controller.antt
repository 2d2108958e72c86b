-- ===== src/Control/Foc/Controller.antt =====
-- fw/math/inc/math/foc/controller.h: the current controller `FocController`.
use spcd_actuator.Prelude.{Bool, true, false, not, if◌then◌else◌, Option, none, some}
use spcd_actuator.Floats.{Floats}
use spcd_actuator.Motor.Start.{two_pi, wrap_zero_to_two_pi}
use spcd_actuator.Control.Pid
use spcd_actuator.Control.Pid.{limit, clear, apply_pi, set_integral_for_output}
use spcd_actuator.Control.Foc.{
  Dq, Duties, svpwm_ratio, sin_cos, dq_transform, inverse_dq_transform, from_phase_volts, duties_of,
}

-- `FocController::Options` and `FocController::Command`
pub record Options (fl : Floats) : Type 0 where
  pub bus_V : fl.F
  pub min_duty : fl.F
  pub max_duty : fl.F
  pub kp_d : fl.F
  pub ki_d : fl.F
  pub kp_q : fl.F
  pub ki_q : fl.F
  pub max_current_A : fl.F
  pub max_current_desired_rate_A_s : fl.F
  pub resistance_ohm : fl.F
  pub inductance_d_H : fl.F
  pub inductance_q_H : fl.F
  pub v_per_hz : fl.F
  pub current_feedforward : fl.F
  pub cross_coupling_feedforward : fl.F
  pub bemf_feedforward : fl.F
  pub phase_lead_s : fl.F

pub record Command (fl : Floats) : Type 0 where
  pub theta_rad : fl.F
  pub id_A : fl.F
  pub iq_A : fl.F
  pub theta_rate_rad_s : fl.F

-- `SimplePI::Config`
pub record PiConfig (fl : Floats) : Type 0 where
  pub kp : fl.F
  pub ki : fl.F
  pub max_desired_rate : fl.F

-- The members of `FocController`.
pub record Foc (fl : Floats) : Type 0 where
  pub options : Options fl
  pub config_d : PiConfig fl
  pub config_q : PiConfig fl
  pub pi_d : spcd_actuator.Control.Pid.State fl
  pub pi_q : spcd_actuator.Control.Pid.State fl
  pub active : Bool
  pub theta : fl.F
  pub theta_rate : fl.F
  pub omega_elec : fl.F
  pub omega_rotor : fl.F
  pub id_ref : fl.F
  pub iq_ref : fl.F
  pub id_A : fl.F
  pub iq_A : fl.F
  pub vd_V : fl.F
  pub vq_V : fl.F

module _ (fl : Floats) where
  -- `SyncPiConfig`
  unfoldable pub sync_pi_config : Foc fl → Foc fl
  sync_pi_config f =
      let o = f.options in
      record f {
        config_d = record {
          kp = o.kp_d;
          ki = o.ki_d;
          max_desired_rate = o.max_current_desired_rate_A_s;
        };
        config_q = record {
          kp = o.kp_q;
          ki = o.ki_q;
          max_desired_rate = o.max_current_desired_rate_A_s;
        };
      }

  -- `ClampCurrent`
  unfoldable pub clamp_current : Options fl → fl.F → fl.F
  clamp_current o i = limit fl i (fl.neg o.max_current_A) o.max_current_A

  -- `Start`, `Stop`
  unfoldable pub start : Command fl → Foc fl → Foc fl
  start c f = record (sync_pi_config f) {
    theta = wrap_zero_to_two_pi fl c.theta_rad;
    id_ref = clamp_current f.options c.id_A;
    iq_ref = clamp_current f.options c.iq_A;
    theta_rate = c.theta_rate_rad_s;
    omega_elec = fl.lit 0 0;
    omega_rotor = fl.lit 0 0;
    pi_d = clear fl;
    pi_q = clear fl;
    id_A = fl.lit 0 0;
    iq_A = fl.lit 0 0;
    vd_V = fl.lit 0 0;
    vq_V = fl.lit 0 0;
    active = true;
  }

  unfoldable pub stop : Foc fl → Foc fl
  stop f = record f { active = false; pi_d = clear fl; pi_q = clear fl }

  -- `SetRefs`, `SetThetaRate`, `SetOmega`
  unfoldable pub set_refs : fl.F → fl.F → Foc fl → Foc fl
  set_refs id_A iq_A f = record f {
    id_ref = clamp_current f.options id_A;
    iq_ref = clamp_current f.options iq_A;
  }

  unfoldable pub set_theta_rate : fl.F → Foc fl → Foc fl
  set_theta_rate theta_rate_rad_s f = record f { theta_rate = theta_rate_rad_s }

  unfoldable pub set_omega : fl.F → fl.F → Foc fl → Foc fl
  set_omega omega_elec omega_rotor_mech f = record f {
    omega_elec = omega_elec;
    omega_rotor = omega_rotor_mech;
  }

  -- `SetVPerHz`, `SetBusVoltage`, `SetMaxCurrent`, `SetFeedforwards`, `SetPhaseLead`: options that
  -- `Step` reads
  unfoldable pub set_v_per_hz : fl.F → Foc fl → Foc fl
  set_v_per_hz v f = record f { options = record f.options { v_per_hz = v } }

  unfoldable pub set_bus_voltage : fl.F → Foc fl → Foc fl
  set_bus_voltage bus_V f = record f { options = record f.options { bus_V = bus_V } }

  unfoldable pub set_max_current : fl.F → Foc fl → Foc fl
  set_max_current i f = record f { options = record f.options { max_current_A = i } }

  unfoldable pub set_feedforwards : fl.F → fl.F → fl.F → Foc fl → Foc fl
  set_feedforwards bemf_ff current_ff cross_ff f = record f {
    options = record f.options {
      bemf_feedforward = bemf_ff;
      current_feedforward = current_ff;
      cross_coupling_feedforward = cross_ff;
    };
  }

  unfoldable pub set_phase_lead : fl.F → Foc fl → Foc fl
  set_phase_lead s f = record f { options = record f.options { phase_lead_s = s } }

  -- `SetMaxCurrentDesiredRate`
  unfoldable pub set_max_current_desired_rate : fl.F → Foc fl → Foc fl
  set_max_current_desired_rate rate f =
      sync_pi_config
        (record f { options = record f.options { max_current_desired_rate_A_s = rate } })

  -- The gains of a bandwidth in rad/s, for a resistance and inductances.
  abbrev pub put_gains : fl.F → fl.F → fl.F → fl.F → Options fl → Options fl
  put_gains w r ld lq o = record o {
    kp_d = fl.mul w ld;
    kp_q = fl.mul w lq;
    ki_d = fl.mul w r;
    ki_q = fl.mul w r;
  }

  -- `SetBandwidthHz`
  unfoldable pub set_bandwidth_hz : fl.F → Foc fl → Foc fl
  set_bandwidth_hz bandwidth_hz f =
      let o = f.options in
      let hz = if fl.lt bandwidth_hz (fl.lit 1 0) then fl.lit 1 0 else bandwidth_hz in
      let w = fl.mul (two_pi fl) hz in
      sync_pi_config
        (record f { options = put_gains w o.resistance_ohm o.inductance_d_H o.inductance_q_H o })

  -- `SetResistanceInductance`, by whether there is a bandwidth to keep
  unfoldable pub keep_bandwidth_if : Bool → fl.F → fl.F → fl.F → fl.F → Foc fl → Foc fl
  keep_bandwidth_if true w r ld lq f =
      sync_pi_config (record f { options = put_gains w r ld lq f.options })
  keep_bandwidth_if false w r ld lq f = f

  unfoldable pub set_resistance_inductance : fl.F → fl.F → fl.F → Foc fl → Foc fl
  set_resistance_inductance r ld lq f =
      let o = f.options in
      let w =
        if fl.lt (fl.lit 1 9) o.inductance_d_H
        then fl.div o.kp_d o.inductance_d_H
        else fl.lit 0 0 in
      keep_bandwidth_if (fl.lt (fl.lit 0 0) w) w r ld lq (record f {
        options = record o { resistance_ohm = r; inductance_d_H = ld; inductance_q_H = lq };
      })

  -- `max_voltage_V`, `voltage_headroom_V`
  unfoldable pub max_voltage : Options fl → fl.F
  max_voltage o = fl.mul (fl.mul (fl.sub (fl.lit 5 1) o.min_duty) o.bus_V) (svpwm_ratio fl)

  unfoldable pub voltage_headroom : Foc fl → fl.F
  voltage_headroom f =
      let used = fl.sqrt (fl.add (fl.mul f.vd_V f.vd_V) (fl.mul f.vq_V f.vq_V)) in
      let headroom = fl.sub (max_voltage f.options) used in
      if fl.lt (fl.lit 0 0) headroom then headroom else fl.lit 0 0

  -- `Observe`
  unfoldable pub observe : fl.F → fl.F → fl.F → Foc fl → Foc fl
  observe ia ib ic f =
      let dq = dq_transform fl (sin_cos fl f.theta) ia ib ic in
      record f { id_A = dq.d; iq_A = dq.q }

  -- `LimitToMaxVoltage`
  unfoldable pub limit_to_max_voltage : fl.F → Dq fl → Dq fl
  limit_to_max_voltage max_V v =
      let square = fl.mul max_V max_V in
      let d = limit fl v.d (fl.neg max_V) max_V in
      let remain = fl.sub square (fl.mul d d) in
      let q_max = fl.sqrt (if fl.lt remain (fl.lit 0 0) then fl.lit 0 0 else remain) in
      let fits = fl.le (fl.add (fl.mul v.d v.d) (fl.mul v.q v.q)) square in
      record {
        d = if fits then v.d else d;
        q = if fits then v.q else limit fl v.q (fl.neg q_max) q_max;
      }

  -- The feedforward of `Step` in both axes.
  unfoldable pub feedforward : Foc fl → Dq fl
  feedforward f =
      let o = f.options in
      let cross_d =
        fl.mul (fl.mul (fl.mul (fl.neg f.omega_elec) o.inductance_q_H) f.iq_ref)
          o.cross_coupling_feedforward in
      let cross_q =
        fl.mul (fl.mul (fl.mul f.omega_elec o.inductance_d_H) f.id_ref)
          o.cross_coupling_feedforward in
      record {
        d = fl.add (fl.mul (fl.mul f.id_ref o.current_feedforward) o.resistance_ohm) cross_d;
        q =
            fl.add
              (fl.add (fl.mul (fl.mul f.iq_ref o.current_feedforward) o.resistance_ohm) cross_q)
              (fl.mul (fl.mul f.omega_rotor o.bemf_feedforward) o.v_per_hz);
      }

  -- The integral of an axis after a step: for the voltage that was applied where the limit changed it,
  -- and within the greatest voltage.
  unfoldable pub settle :
      fl.F
      → fl.F
      → fl.F
      → fl.F
      → PiConfig fl
      → spcd_actuator.Control.Pid.State fl
      → spcd_actuator.Control.Pid.State fl
  settle max_V applied wanted ff c p =
      let kept = (set_integral_for_output fl c.kp (fl.sub applied ff) p).integral in
      let integral = if not (fl.eq applied wanted) then kept else p.integral in
      record p { integral = limit fl integral (fl.neg max_V) max_V }

  abbrev pub apply_axis :
      PiConfig fl
      → fl.F
      → fl.F
      → fl.F
      → spcd_actuator.Control.Pid.State fl
      → spcd_actuator.Control.Pid.State fl
  apply_axis c measured wanted dt_s p =
      apply_pi fl c.kp c.ki c.max_desired_rate measured wanted dt_s p

  -- The control of `Step` at the angle and the currents.
  unfoldable pub control : fl.F → Foc fl → Foc fl
  control dt_s f =
      let max_V = max_voltage f.options in
      let ff = feedforward f in
      let pi_d = apply_axis f.config_d f.id_A f.id_ref dt_s f.pi_d in
      let pi_q = apply_axis f.config_q f.iq_A f.iq_ref dt_s f.pi_q in
      let d = fl.add pi_d.command ff.d in
      let q = fl.add pi_q.command ff.q in
      let v = limit_to_max_voltage max_V (record { d = d; q = q }) in
      record f {
        pi_d = settle max_V v.d d ff.d f.config_d pi_d;
        pi_q = settle max_V v.q q ff.q f.config_q pi_q;
        vd_V = v.d;
        vq_V = v.q;
      }

  -- The duties of the voltages, one transport delay ahead.
  unfoldable pub duties_at : Foc fl → Option Duties
  duties_at f =
      let o = f.options in
      let theta_out =
        wrap_zero_to_two_pi fl (fl.add f.theta (fl.mul f.omega_elec o.phase_lead_s)) in
      duties_of fl (
        from_phase_volts fl (inverse_dq_transform fl (sin_cos fl theta_out) f.vd_V f.vq_V) o.bus_V
          o.min_duty o.max_duty)

  -- The angle of `Step`: that of the encoder where it is given.
  unfoldable pub angle : fl.F → Option fl.F → Foc fl → fl.F
  angle dt_s none f = wrap_zero_to_two_pi fl (fl.add f.theta (fl.mul f.theta_rate dt_s))
  angle dt_s (some theta_elec) f = wrap_zero_to_two_pi fl theta_elec

  unfoldable pub turn : fl.F → Option fl.F → fl.F → fl.F → fl.F → Foc fl → Foc fl
  turn dt_s given ia ib ic f =
      control dt_s (observe ia ib ic (record f { theta = angle dt_s given f }))

  -- `Step`, `none` where it gives no duties
  unfoldable pub step_if :
      Bool → fl.F → Option fl.F → fl.F → fl.F → fl.F → Foc fl → Foc fl × Option Duties
  step_if false dt_s given ia ib ic f = (f, none)
  step_if true dt_s given ia ib ic f =
      let t = if fl.lt dt_s (fl.lit 0 0) then fl.lit 0 0 else dt_s in
      (turn t given ia ib ic f, duties_at (turn t given ia ib ic f))

  unfoldable pub step : fl.F → Option fl.F → fl.F → fl.F → fl.F → Foc fl → Foc fl × Option Duties
  step dt_s given ia ib ic f = step_if f.active dt_s given ia ib ic f
