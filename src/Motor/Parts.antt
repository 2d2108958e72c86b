-- ===== src/Motor/Parts.antt =====
-- motor_control_service.h and .cc: the state of `MotorControlService` with the parts that it owns a
-- switch of, what the parts answer, `Stop`, `StopFinishedSession`, `StartIsr` and `PrimeFoc`. The
-- board passes every pointer, so none of them is null here.
use spcd_actuator.Prelude.{ℕ, Bool, true, false, List, ◌∷◌}
use spcd_actuator.Floats.{Floats}
use spcd_actuator.Snapshot.{Service, abort}
use spcd_actuator.Link.Commands.{ServoCommand, MitCommand}
use spcd_actuator.Protection.Monitor.{Config, Monitor, reset}

-- `Mode`
pub data Mode : Type 0 where
  stopped calibration servo current mit : Mode

-- `hal::PhaseCurrentAdc::Sample`
pub record Sample (fl : Floats) : Type 0 where
  pub ok : Bool
  pub i1_A : fl.F
  pub i2_A : fl.F
  pub i3_A : fl.F

-- The calls of the service into its parts, with the values that it hands over.
pub data Call (fl : Floats) : Type 0 where
  enable_isr disable_isr power_on power_off pwm_stop : Call fl
  set_duty : ℕ → ℕ → ℕ → Call fl
  -- of the encoder and the calibration manager
  sample_blocking reset_pll restore_calibration begin_calibration : Call fl
  update_pwm_isr : fl.F → Call fl
  set_last_kind : ℕ → Call fl
  apply_encoder apply_bemf apply_cogging apply_resistance apply_inductance : Call fl
  -- of the calibration result's sink
  accept_bemf accept_resistance accept_inductance : Call fl
  -- of the controllers
  start_foc : fl.F → fl.F → fl.F → Call fl
  set_refs : fl.F → fl.F → Call fl
  set_omega : fl.F → fl.F → Call fl
  set_theta_rate : fl.F → Call fl
  start_servo set_servo : ServoCommand fl → Call fl
  start_servo_velocity set_velocity set_servo_id_ref : fl.F → Call fl
  start_mit set_mit : MitCommand fl → Call fl
  set_bus_voltage : fl.F → Call fl
  start_modulator set_dq_voltage : fl.F → fl.F → Call fl
  -- the identification sessions: the options that are not left at their defaults
  start_resistance : fl.F → ℕ → Call fl
  start_inductance : fl.F → fl.F → ℕ → Call fl
  start_bemf : fl.F → fl.F → ℕ → Call fl
  start_cogging : fl.F → fl.F → Call fl
  -- by lock or by spin, current, speed, pole pairs, revolutions each way
  start_encoder_phase : Bool → fl.F → fl.F → fl.F → fl.F → Call fl

-- What is on: the mode and the output flag of `MotorControlService`, `phase_pwm_->control_isr_on()`,
-- the gate driver's power, and the `active()` of the controllers and of the calibration sessions.
pub record Switches : Type 0 where
  pub mode : Mode
  pub output_enabled : Bool
  pub isr_on : Bool
  pub powered : Bool
  pub modulator_active : Bool
  pub servo_active : Bool
  pub mit_active : Bool
  pub foc_active : Bool
  pub encoder_phase_active : Bool
  pub bemf_active : Bool
  pub resistance_active : Bool
  pub inductance_active : Bool
  pub cogging_active : Bool

-- The members of `MotorControlService` that change, the switches, and the calls made so far, newest
-- first.
pub record Motor (fl : Floats) : Type 0 where
  pub on : Switches
  pub dq_valid : Bool
  pub id_A : fl.F
  pub iq_A : fl.F
  pub last_current : Sample fl
  pub last_control_us : ℕ
  pub safety : Monitor fl
  pub protection : Config fl
  pub measured_bus_V : fl.F
  pub fet_temp_C : fl.F
  pub fet_temp_ok : Bool
  pub snapshot : Service
  pub calls : List (Call fl)

abbrev pub switch : {fl : Floats} → (Switches → Switches) → Motor fl → Motor fl
switch f m = record m { on = f m.on }

-- What the parts answer during one operation.
pub record Readings (fl : Floats) : Type 0 where
  -- `phase_pwm_->init_ok()`, `period_s()`, the timer
  pub pwm_init_ok : Bool
  pub period_s : fl.F
  pub now_us : ℕ
  pub sample : Sample fl
  -- `vt_sense_->ReadLatest()`
  pub bus_ok : Bool
  pub bus_V : fl.F
  pub fet_ok : Bool
  pub fet_temp_C : fl.F
  -- the encoder and its PLL; `position_before` is read before `ResetPll` in a start
  pub encoder_valid : Bool
  pub theta_valid : Bool
  pub position_before_rad : fl.F
  pub position_rad : fl.F
  pub mechanical_rad : fl.F
  pub electrical_rad : fl.F
  pub electrical_theta : fl.F
  pub velocity_mech : fl.F
  pub omega_elec : fl.F
  pub cogging_A : fl.F
  -- the FOC controller: `Step` of an active one, the values after it, and `iq_ref_A()`
  pub foc_ok : Bool
  pub foc_id_A : fl.F
  pub foc_iq_A : fl.F
  pub foc_iq_ref_A : fl.F
  pub foc_resistance_ohm : fl.F
  -- the modulator: `Step` of an active one, and the currents that `ObserveDq` computes
  pub modulator_ok : Bool
  pub observed_d_A : fl.F
  pub observed_q_A : fl.F
  pub duty_a : ℕ
  pub duty_b : ℕ
  pub duty_c : ℕ
  -- the outer controllers
  pub servo_iq_A : fl.F
  pub servo_id_ref_A : fl.F
  pub servo_faulted : Bool
  pub mit_iq_A : fl.F
  -- the running calibration session: its commands, does its step end it, and is it done then
  pub session_velocity : fl.F
  pub session_current_A : fl.F
  pub session_d_V : fl.F
  pub session_q_V : fl.F
  pub session_finished : Bool
  pub session_done : Bool

abbrev pub call : {fl : Floats} → Call fl → Motor fl → Motor fl
call c m = record m { calls = c ∷ m.calls }

-- `Stop`
unfoldable pub stop : {fl : Floats} → Motor fl → Motor fl
stop m =
    switch
      (λ s. record s {
        mode = stopped;
        output_enabled = false;
        isr_on = false;
        powered = false;
        modulator_active = false;
        servo_active = false;
        mit_active = false;
        foc_active = false;
        encoder_phase_active = false;
        bemf_active = false;
        resistance_active = false;
        inductance_active = false;
        cogging_active = false;
      })
      (record m {
        dq_valid = false;
        last_control_us = 0;
        snapshot = abort m.snapshot;
        calls = power_off ∷ pwm_stop ∷ restore_calibration ∷ disable_isr ∷ m.calls;
      })

-- `StopFinishedSession`; the duty is `kDutyMinMilli`.
unfoldable pub stop_finished_session : {fl : Floats} → Motor fl → Motor fl
stop_finished_session m =
    switch
      (λ s. record s {
        mode = stopped;
        output_enabled = false;
        powered = false;
        modulator_active = false;
        servo_active = false;
        mit_active = false;
        foc_active = false;
      })
      (record m { calls = set_duty 50 50 50 ∷ power_off ∷ m.calls })

-- `StartIsr`
unfoldable pub start_isr_if : {fl : Floats} → Bool → Motor fl → Motor fl
start_isr_if {fl} true m =
    switch (λ s. record s { isr_on = true })
      (record (call enable_isr m) { safety = reset fl m.safety; last_control_us = 0 })
start_isr_if false m = m

unfoldable pub start_isr : {fl : Floats} → Readings fl → Motor fl → Motor fl
start_isr r m = start_isr_if r.pwm_init_ok m

-- The end of every start: `PowerOn`, the output flag, the mode and `StartIsr`.
unfoldable pub go : {fl : Floats} → Mode → Readings fl → Motor fl → Motor fl
go mode r m = start_isr r (
    switch (λ s. record s { powered = true; output_enabled = true; mode = mode }) (call power_on m))

-- What follows a successful `foc_->Step` everywhere: the currents, and the duties at the PWM.
unfoldable pub drive : {fl : Floats} → Readings fl → Motor fl → Motor fl
drive r m = record (call (set_duty r.duty_a r.duty_b r.duty_c) m) {
  id_A = r.foc_id_A;
  iq_A = r.foc_iq_A;
  dq_valid = r.sample.ok;
}

-- `PrimeFoc`, true for `Result::Ok`: `foc_->Start` and the first `foc_->Step`.
unfoldable pub begin_foc : {fl : Floats} → fl.F → fl.F → fl.F → Readings fl → Motor fl → Motor fl
begin_foc theta_rad id_A iq_A r m =
    switch (λ s. record s { foc_active = true })
      (record (call (set_omega r.omega_elec r.velocity_mech)
        (call (start_foc theta_rad id_A iq_A) m)) { last_current = r.sample })

unfoldable pub step_primed : {fl : Floats} → Bool → Readings fl → Motor fl → Motor fl × Bool
step_primed true r m = (drive r m, true)
step_primed false r m = (switch (λ s. record s { foc_active = false }) m, false)

unfoldable pub prime_foc :
    {fl : Floats} → fl.F → fl.F → fl.F → Readings fl → Motor fl → Motor fl × Bool
prime_foc theta_rad id_A iq_A r m = step_primed r.foc_ok r (begin_foc theta_rad id_A iq_A r m)
