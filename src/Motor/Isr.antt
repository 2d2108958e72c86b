-- ===== src/Motor/Isr.antt =====
-- motor_control_service.cc: `StepIsr`, which the timer's interrupt calls once in a PWM period, with
-- `ApplyProtection`, `ObserveDq` and `SampleSlowTelemetry`.
use spcd_actuator.Prelude.{
  ℕ, Bool, true, false, ◌&&◌, ◌||◌, ◌∷◌, if◌then◌else◌, not, leb, ◌==◌, u16, ◌+◌, ◌-◌,
}
use spcd_actuator.Floats.{Floats}
use spcd_actuator.Snapshot.{State, capturing, push_isr}
use spcd_actuator.Protection.Monitor.{Input, Trip, nothing, evaluate}
use spcd_actuator.Motor.Parts.{
  Motor, Switches, Readings, switch, call, stop, stop_finished_session, drive, disable_isr,
  power_on, set_duty, update_pwm_isr, restore_calibration, apply_encoder, apply_bemf, apply_cogging,
  apply_resistance, apply_inductance, accept_bemf, accept_resistance, accept_inductance, set_refs,
  set_omega, set_theta_rate, set_velocity, set_servo_id_ref, set_bus_voltage, set_dq_voltage,
}
use spcd_actuator.Motor.Calibrate.{observe_dq}
use spcd_actuator.Motor.Start.{is_servo, is_current, is_mit}

-- `SampleSlowTelemetry`, which `ApplyProtection` repeats: the bus voltage and the temperature.
unfoldable pub sample_slow_telemetry : {fl : Floats} → Readings fl → Motor fl → Motor fl
sample_slow_telemetry r m = record m {
  fet_temp_ok = r.fet_ok;
  fet_temp_C = if r.fet_ok then r.fet_temp_C else m.fet_temp_C;
  measured_bus_V = if r.bus_ok then r.bus_V else m.measured_bus_V;
  calls = if r.bus_ok then set_bus_voltage r.bus_V ∷ m.calls else m.calls;
}

abbrev pub is_nothing : Trip → Bool
is_nothing nothing = true
is_nothing _ = false

-- What `ApplyProtection` hands to the safety monitor.
unfoldable pub protection_input : {fl : Floats} → fl.F → Readings fl → Input fl
protection_input dt_s r = record {
  current_ok = r.sample.ok;
  i1_A = r.sample.i1_A;
  i2_A = r.sample.i2_A;
  i3_A = r.sample.i3_A;
  bus_ok = r.bus_ok;
  bus_V = r.bus_V;
  fet_ok = r.fet_ok;
  fet_temp_C = r.fet_temp_C;
  dt_s = dt_s;
}

-- `ApplyProtection`
unfoldable pub protect : {fl : Floats} → Bool → Motor fl → Motor fl × Bool
protect true m = (m, true)
protect false m = (stop m, false)

unfoldable pub apply_protection : {fl : Floats} → fl.F → Readings fl → Motor fl → Motor fl × Bool
apply_protection {fl} dt_s r m =
    let sampled = sample_slow_telemetry r m in
    let safety = evaluate fl m.protection (protection_input dt_s r) m.safety in
    protect (is_nothing safety.last_trip) (record sampled { safety = safety })

-- The session flags of `StepIsr`.
abbrev pub servo_runs : Switches → Bool
servo_runs s = is_servo s.mode && (s.servo_active && (not s.bemf_active && not s.cogging_active))

abbrev pub mit_runs : Switches → Bool
mit_runs s = is_mit s.mode && (s.mit_active && s.foc_active)

abbrev pub current_runs : Switches → Bool
current_runs s = is_current s.mode && s.foc_active

unfoldable pub control_active : Switches → Bool
control_active s =
    s.encoder_phase_active
    || (s.bemf_active
        || (s.resistance_active
            || (s.inductance_active
                || (s.cogging_active || (servo_runs s || (mit_runs s || current_runs s))))))

-- The time since the last step on the 16-bit timer, where it is plausible, and the PWM period
-- elsewhere.
unfoldable pub control_dt : {fl : Floats} → ℕ → Readings fl → fl.F
control_dt {fl} last_control_us r =
    let dt_us = u16 (r.now_us + 65536 - last_control_us) in
    if not (last_control_us == 0) && (leb 20 dt_us && leb dt_us 500)
    then fl.mul (fl.of_u32 dt_us) (fl.lit 1 6)
    else r.period_s

abbrev pub is_capturing : State → Bool
is_capturing capturing = true
is_capturing _ = false

-- `snapshot_->PushIsr(…)`
unfoldable pub push : {fl : Floats} → fl.F → Readings fl → Motor fl → Motor fl
push {fl} dt_s r m =
    let dt_us = fl.to_u32 (fl.add (fl.mul dt_s (fl.lit 1000000 0)) (fl.lit 5 1)) in
    record m {
      snapshot =
          push_isr fl m.id_A m.iq_A r.sample.i1_A r.sample.i2_A r.sample.i3_A r.mechanical_rad
            r.electrical_rad dt_us m.snapshot;
    }

-- `encoder_->UpdatePwmIsr(dt_s)` where the test holds.
unfoldable pub update_encoder : {fl : Floats} → Bool → fl.F → Motor fl → Motor fl
update_encoder test dt_s m = record m {
  calls = if test then update_pwm_isr dt_s ∷ m.calls else m.calls;
}

-- `StepIsr` while nothing is to be driven: by whether a snapshot is captured and the interrupt is on.
unfoldable pub idle_step_as : {fl : Floats} → Bool → Bool → fl.F → Readings fl → Motor fl → Motor fl
idle_step_as true isr_on dt_s r m =
    push dt_s r (update_encoder r.encoder_valid dt_s (record m { last_current = r.sample }))
idle_step_as false true dt_s r m =
    switch (λ s. record s { isr_on = false }) (record (call disable_isr m) { last_control_us = 0 })
idle_step_as false false dt_s r m = m

unfoldable pub idle_step : {fl : Floats} → fl.F → Readings fl → Motor fl → Motor fl
idle_step dt_s r m = idle_step_as (is_capturing m.snapshot.state) m.on.isr_on dt_s r m

-- `gate_driver_->PowerOn(); output_enabled_ = true;`
unfoldable pub power : {fl : Floats} → Motor fl → Motor fl
power m = switch (λ s. record s { powered = true; output_enabled = true }) (call power_on m)

-- The branches of `StepIsr`. Each gives the motor and whether it goes on to the snapshot: a branch
-- that returns early does not. They are taken by whether the controller's step succeeds and whether
-- the session's step ends it.
unfoldable pub encoder_phase_as :
    {fl : Floats} → Bool → Bool → Readings fl → Motor fl → Motor fl × Bool
encoder_phase_as false finished r m = (m, false)
encoder_phase_as true false r m = (power (drive r m), true)
encoder_phase_as true true r m = (
  stop_finished_session (
      switch (λ s. record s { encoder_phase_active = false })
        (call (if r.session_done then apply_encoder else restore_calibration) (power (drive r m)))),
  true,
)

unfoldable pub drive_encoder_phase : {fl : Floats} → Readings fl → Motor fl → Motor fl × Bool
drive_encoder_phase {fl} r m =
    encoder_phase_as (m.on.foc_active && r.foc_ok) r.session_finished r (
      call (set_refs r.session_current_A (fl.lit 0 0)) (call (set_theta_rate r.session_velocity) m))

-- The result of a finished velocity session: that of the back-EMF is also told to the sink.
unfoldable pub finish_velocity : {fl : Floats} → Bool → Readings fl → Motor fl → Motor fl
finish_velocity true r m = stop_finished_session (
    switch (λ s. record s { bemf_active = false })
      (record m { calls = if r.session_done then accept_bemf ∷ apply_bemf ∷ m.calls else m.calls }))
finish_velocity false r m = stop_finished_session (
    switch (λ s. record s { cogging_active = false })
      (record m { calls = if r.session_done then apply_cogging ∷ m.calls else m.calls }))

unfoldable pub velocity_as : {fl : Floats} → Bool → Bool → Readings fl → Motor fl → Motor fl × Bool
velocity_as false finished r m = (m, false)
velocity_as true false r m = (power (drive r m), true)
velocity_as true true r m = (finish_velocity m.on.bemf_active r (power (drive r m)), true)

-- By the encoder's and the PLL's validity, and the servo's fault.
unfoldable pub velocity_if : {fl : Floats} → Bool → Bool → Readings fl → Motor fl → Motor fl × Bool
velocity_if false faulted r m = (stop m, false)
velocity_if {fl} true true r m =
    (stop (call (set_servo_id_ref (fl.lit 0 0)) (call (set_velocity r.session_velocity) m)), false)
velocity_if {fl} true false r m = velocity_as (m.on.foc_active && r.foc_ok) r.session_finished r (
    call (set_omega r.omega_elec r.velocity_mech) (
      call (set_refs r.servo_id_ref_A r.servo_iq_A)
        (call (set_servo_id_ref (fl.lit 0 0)) (call (set_velocity r.session_velocity) m))))

unfoldable pub drive_velocity : {fl : Floats} → Readings fl → Motor fl → Motor fl × Bool
drive_velocity r m = velocity_if (r.encoder_valid && r.theta_valid) r.servo_faulted r m

unfoldable pub resistance_as :
    {fl : Floats} → Bool → Bool → Readings fl → Motor fl → Motor fl × Bool
resistance_as false finished r m = (m, false)
resistance_as true false r m = (power (drive r m), true)
resistance_as true true r m =
    let driven = power (drive r m) in
    (
      stop_finished_session (
          switch (λ s. record s { resistance_active = false })
            (record driven {
              calls =
                  if r.session_done
                  then accept_resistance ∷ apply_resistance ∷ driven.calls
                  else driven.calls;
            })),
      true,
    )

unfoldable pub drive_resistance : {fl : Floats} → Readings fl → Motor fl → Motor fl × Bool
drive_resistance {fl} r m =
    resistance_as (m.on.foc_active && r.foc_ok) r.session_finished r
      (call (set_refs r.session_current_A (fl.lit 0 0)) m)

-- What the modulator's duties do: `SetDuty`, `PowerOn` and `ObserveDq`.
unfoldable pub modulate : {fl : Floats} → Readings fl → Motor fl → Motor fl
modulate r m = observe_dq r (power (call (set_duty r.duty_a r.duty_b r.duty_c) m))

unfoldable pub inductance_as :
    {fl : Floats} → Bool → Bool → Readings fl → Motor fl → Motor fl × Bool
inductance_as false finished r m = (m, false)
inductance_as true false r m = (modulate r m, true)
inductance_as true true r m =
    let driven = modulate r m in
    (
      stop_finished_session (
          switch (λ s. record s { inductance_active = false })
            (record driven {
              calls =
                  if r.session_done
                  then accept_inductance ∷ apply_inductance ∷ driven.calls
                  else driven.calls;
            })),
      true,
    )

unfoldable pub drive_inductance : {fl : Floats} → Readings fl → Motor fl → Motor fl × Bool
drive_inductance r m =
    inductance_as (m.on.modulator_active && r.modulator_ok) r.session_finished r
      (call (set_dq_voltage r.session_d_V r.session_q_V) m)

-- The references of the servo and of the MIT mode; the current mode keeps its own.
unfoldable pub set_mode_refs : {fl : Floats} → Readings fl → Motor fl → Motor fl
set_mode_refs {fl} r m = record m {
  calls =
      if servo_runs m.on
      then set_refs r.servo_id_ref_A (fl.add r.servo_iq_A r.cogging_A) ∷ m.calls
      else if mit_runs m.on
      then set_refs (fl.lit 0 0) (fl.add r.mit_iq_A r.cogging_A) ∷ m.calls
      else m.calls;
}

unfoldable pub mode_as : {fl : Floats} → Bool → Readings fl → Motor fl → Motor fl × Bool
mode_as false r m = (m, false)
mode_as true r m = (power (drive r m), true)

-- By the validity of the angle, and the fault of a servo that runs.
unfoldable pub mode_if : {fl : Floats} → Bool → Bool → Readings fl → Motor fl → Motor fl × Bool
mode_if false faulted r m = (stop m, false)
mode_if true true r m = (stop m, false)
mode_if true false r m =
    mode_as (m.on.foc_active && r.foc_ok) r
      (call (set_omega r.omega_elec r.velocity_mech) (set_mode_refs r m))

unfoldable pub drive_mode : {fl : Floats} → Readings fl → Motor fl → Motor fl × Bool
drive_mode r m = mode_if (r.encoder_valid && r.theta_valid) (servo_runs m.on && r.servo_faulted) r m

unfoldable pub drive_session : {fl : Floats} → Readings fl → Motor fl → Motor fl × Bool
drive_session r m =
    if m.on.encoder_phase_active
    then drive_encoder_phase r m
    else if m.on.bemf_active || m.on.cogging_active
    then drive_velocity r m
    else if m.on.resistance_active
    then drive_resistance r m
    else if m.on.inductance_active
    then drive_inductance r m
    else drive_mode r m

-- The snapshot at the end of `StepIsr`.
unfoldable pub end_step : {fl : Floats} → fl.F → Readings fl → Motor fl × Bool → Motor fl
end_step dt_s r (m, true) = push dt_s r m
end_step dt_s r (m, false) = m

-- `StepIsr` after the protection, where it lets it go on.
unfoldable pub driven_step : {fl : Floats} → fl.F → Readings fl → Motor fl × Bool → Motor fl
driven_step dt_s r (m, true) =
    end_step dt_s r
      (drive_session r (update_encoder (r.encoder_valid || m.on.encoder_phase_active) dt_s m))
driven_step dt_s r (m, false) = m

unfoldable pub step_as : {fl : Floats} → Bool → fl.F → Readings fl → Motor fl → Motor fl
step_as false dt_s r m = idle_step dt_s r m
step_as true dt_s r m =
    driven_step dt_s r (apply_protection dt_s r (record m { last_current = r.sample }))

-- `StepIsr`
unfoldable pub step_isr : {fl : Floats} → Readings fl → Motor fl → Motor fl
step_isr r m =
    step_as (control_active m.on) (control_dt m.last_control_us r) r
      (record m { last_control_us = r.now_us })
