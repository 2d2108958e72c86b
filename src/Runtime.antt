-- ===== src/Runtime.antt =====
-- fw/board/xtellar_stm32g4/runtime_config_service.cc: the limits that `Apply` puts on the settings, and
-- the electrical parameters that come from the calibration. The groups are their structs here, without
-- the reserved words.
pub mod Defaults
pub mod Apply
pub mod Service
pub mod Agreement
pub mod Coherence
mod Tests
use spcd_actuator.Prelude.{Bool, true, false, ◌&&◌, ◌≡◌, refl, if◌then◌else◌, Option, none, some}
use spcd_actuator.Floats.{Floats}
use spcd_actuator.Calibration.Record.{Stored}
use spcd_actuator.Calibration.Manager.{Results}

-- `MotorConf`
pub record Motor (fl : Floats) : Type 0 where
  pub pole_pairs : fl.F
  pub resistance_ohm : fl.F
  pub inductance_H : fl.F
  pub bemf_Vpeak_per_krpm : fl.F
  pub max_phase_current_A : fl.F
  pub fw_speed_rad_s : fl.F
  pub bus_V : fl.F

-- `EncoderConf`
pub record Encoder (fl : Floats) : Type 0 where
  pub pll_filter_hz : fl.F
  pub spike_error_rad : fl.F
  pub filter_us : fl.F

-- `FocConf` and `ServoConf`
pub record FocGroup (fl : Floats) : Type 0 where
  pub bandwidth_hz : fl.F
  pub bemf_feedforward : fl.F
  pub current_feedforward : fl.F
  pub cross_coupling_feedforward : fl.F
  pub max_current_desired_rate_A_s : fl.F

pub record ServoGroup (fl : Floats) : Type 0 where
  pub kp : fl.F
  pub ki : fl.F
  pub kd : fl.F
  pub ilimit : fl.F
  pub max_iq_A : fl.F
  pub velocity_threshold : fl.F
  pub max_position_slip_rad : fl.F
  pub max_velocity_error_rad_s : fl.F
  pub default_velocity_limit_rad_s : fl.F
  pub default_accel_limit_rad_s2 : fl.F
  pub sign_f : fl.F

-- `RuntimeConfig`
pub record Config (fl : Floats) : Type 0 where
  pub motor : Motor fl
  pub foc : FocGroup fl
  pub servo : ServoGroup fl
  pub encoder : Encoder fl

module _ (fl : Floats) where
  -- `if (x < bound) x = bound`
  unfoldable pub raise : fl.F → fl.F → fl.F
  raise bound x = if fl.lt x bound then bound else x

  unfoldable pub lower : fl.F → fl.F → fl.F
  lower bound x = if fl.lt bound x then bound else x

  -- The limits of `Apply`, by group; that of the FOC is on its bandwidth.
  unfoldable pub limit_motor : Motor fl → Motor fl
  limit_motor m = record m {
    pole_pairs = raise (fl.lit 1 0) m.pole_pairs;
    resistance_ohm = raise (fl.lit 1 3) m.resistance_ohm;
    inductance_H = raise (fl.lit 1 7) m.inductance_H;
    max_phase_current_A = raise (fl.lit 1 1) m.max_phase_current_A;
    fw_speed_rad_s = raise (fl.lit 1 0) m.fw_speed_rad_s;
    bus_V = raise (fl.lit 1 0) m.bus_V;
  }

  unfoldable pub limit_bandwidth : fl.F → fl.F
  limit_bandwidth bandwidth_hz = raise (fl.lit 1 0) bandwidth_hz

  unfoldable pub limit_encoder : Encoder fl → Encoder fl
  limit_encoder e = record e {
    pll_filter_hz = raise (fl.lit 1 0) e.pll_filter_hz;
    filter_us = lower (fl.lit 10240 0) (raise (fl.lit 0 0) e.filter_us);
  }

  -- `AcceptResistanceCalibration`, `AcceptInductanceCalibration`
  unfoldable pub accept_resistance : Results fl → Motor fl → Motor fl
  accept_resistance r m = record m {
    resistance_ohm =
        if r.resistance_ok && fl.lt (fl.lit 1 3) r.resistance_ohm
        then r.resistance_ohm
        else m.resistance_ohm;
  }

  unfoldable pub accept_inductance : Results fl → Motor fl → Motor fl
  accept_inductance r m = record m {
    inductance_H =
        if r.inductance_ok
          && (fl.lt (fl.lit 0 0) r.inductance_d_H && fl.lt (fl.lit 0 0) r.inductance_q_H)
        then fl.mul (fl.lit 5 1) (fl.add r.inductance_d_H r.inductance_q_H)
        else m.inductance_H;
  }

  -- The inductance of a stored calibration, and what
  -- `SeedMotorElectricalFromCalibrationFlash` takes of the resistance and the inductance.
  unfoldable pub stored_inductance : Stored fl → fl.F
  stored_inductance d =
      if fl.lt (fl.lit 0 0) d.inductance_d_H && fl.lt (fl.lit 0 0) d.inductance_q_H
      then fl.mul (fl.lit 5 1) (fl.add d.inductance_d_H d.inductance_q_H)
      else if fl.lt (fl.lit 0 0) d.inductance_d_H
      then d.inductance_d_H
      else d.inductance_q_H

  unfoldable pub seed_impedance : Option (Stored fl) → Motor fl → Motor fl
  seed_impedance none m = m
  seed_impedance (some d) m = record m {
    resistance_ohm =
        if d.resistance_valid && fl.lt (fl.lit 1 3) d.resistance_ohm
        then d.resistance_ohm
        else m.resistance_ohm;
    inductance_H =
        if d.inductance_valid && fl.lt (fl.lit 0 0) (stored_inductance d)
        then stored_inductance d
        else m.inductance_H;
  }

  raise_again :
      (b : Bool) (bound x : fl.F) → fl.lt x bound ≡ b → raise bound (raise bound x) ≡ raise bound x
  unfolding raise
  raise_again true bound x e = rw e (raise_bound bound (fl.lt bound bound))
    where
      raise_bound : (bound : fl.F) (c : Bool) → (if c then bound else bound) ≡ bound
      raise_bound bound true = refl
      raise_bound bound false = refl
  raise_again false bound x e = rw e (rw e refl)

  -- Limits that were put once change nothing when they are put again, whatever the floats are.
  limit_motor-limit_motor : (m : Motor fl) → limit_motor (limit_motor m) ≡ limit_motor m
  unfolding limit_motor
  limit_motor-limit_motor m = rw (raise_again _ (fl.lit 1 0) m.pole_pairs refl) (
      rw (raise_again _ (fl.lit 1 3) m.resistance_ohm refl) (
        rw (raise_again _ (fl.lit 1 7) m.inductance_H refl) (
          rw (raise_again _ (fl.lit 1 1) m.max_phase_current_A refl) (
            rw (raise_again _ (fl.lit 1 0) m.fw_speed_rad_s refl)
              (rw (raise_again _ (fl.lit 1 0) m.bus_V refl) refl)))))
