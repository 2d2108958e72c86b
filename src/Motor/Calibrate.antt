-- ===== src/Motor/Calibrate.antt =====
-- motor_control_service.cc: `StartCalibration`. The options of a session that its command leaves at
-- their defaults are not carried along, save the numbers of points and trials (5) and of revolutions.
use spcd_actuator.Prelude.{ℕ, Bool, true, false, ◌||◌, if◌then◌else◌, not, ltb}
use spcd_actuator.Floats.{Floats}
use spcd_actuator.Link.Commands.{
  CalibrationCommand, CalibrationKind, abort, encoder_phase, encoder_lock, resistance, inductance,
  bemf, cogging, Result, ok, failed, not_ready,
}
use spcd_actuator.Motor.Parts.{
  calibration, Motor, Readings, switch, call, stop, go, drive, prime_foc, sample_blocking,
  reset_pll, set_omega, set_duty, set_last_kind, start_foc, start_servo_velocity, start_resistance,
  start_inductance, start_bemf, start_cogging, start_encoder_phase, start_modulator,
  begin_calibration, restore_calibration,
}

-- `CalibrationKindId`
unfoldable pub calibration_kind_id : CalibrationKind → ℕ
calibration_kind_id abort = 0
calibration_kind_id encoder_phase = 1
calibration_kind_id encoder_lock = 2
calibration_kind_id bemf = 3
calibration_kind_id resistance = 4
calibration_kind_id inductance = 5
calibration_kind_id cogging = 6

-- The kinds that need a valid encoder.
abbrev pub needs_encoder : CalibrationKind → Bool
needs_encoder encoder_phase = true
needs_encoder encoder_lock = true
needs_encoder bemf = true
needs_encoder cogging = true
needs_encoder _ = false

-- `c > bound ? c : default`
unfoldable pub above_or : (fl : Floats) → fl.F → fl.F → fl.F → fl.F
above_or fl bound default c = if fl.lt bound c then c else default

-- `c > 0 ? c : 5` of a count of points or trials
unfoldable pub count_or_default : ℕ → ℕ
count_or_default c = if ltb 0 c then c else 5

-- The branch of the resistance.
unfoldable pub finish_resistance : {fl : Floats} → Motor fl × Bool → Motor fl × Bool
finish_resistance (m, true) = (m, true)
finish_resistance (m, false) = (switch (λ s. record s { resistance_active = false }) m, false)

unfoldable pub begin_resistance :
    {fl : Floats} → CalibrationCommand fl → Readings fl → Motor fl → Motor fl × Bool
begin_resistance {fl} c r m =
    let top_A = above_or fl (fl.lit 5 2) (fl.lit 15 1) c.resistance_max_current_A in
    finish_resistance (
      prime_foc (fl.lit 0 0) r.session_current_A (fl.lit 0 0) r (
        switch (λ s. record s { resistance_active = true })
          (call (start_resistance top_A (count_or_default c.resistance_points)) m)))

-- `ObserveDq`
unfoldable pub observe_dq : {fl : Floats} → Readings fl → Motor fl → Motor fl
observe_dq r m = record m {
  id_A = if r.sample.ok then r.observed_d_A else m.id_A;
  iq_A = if r.sample.ok then r.observed_q_A else m.iq_A;
  dq_valid = r.sample.ok;
}

-- The branch of the inductance.
unfoldable pub finish_inductance : {fl : Floats} → Bool → Readings fl → Motor fl → Motor fl × Bool
finish_inductance true r m = (
  call (set_duty r.duty_a r.duty_b r.duty_c) (observe_dq r (record m { last_current = r.sample })),
  true,
)
finish_inductance false r m =
    (switch (λ s. record s { modulator_active = false; inductance_active = false }) m, false)

unfoldable pub begin_inductance :
    {fl : Floats} → CalibrationCommand fl → Readings fl → Motor fl → Motor fl × Bool
begin_inductance {fl} c r m =
    let volts = above_or fl (fl.lit 0 0) (fl.lit 3 0) c.inductance_step_voltage_V in
    finish_inductance r.modulator_ok r (
      switch (λ s. record s { inductance_active = true; modulator_active = true })
        (call (start_modulator r.session_d_V r.session_q_V) (
          call (start_inductance r.foc_resistance_ohm volts (count_or_default c.inductance_trials))
            m)))

-- The end of the branch of the back-EMF and the cogging, once the session is started.
unfoldable pub finish_begin_velocity : {fl : Floats} → Motor fl × Bool → Motor fl × Bool
finish_begin_velocity (m, true) = (m, true)
finish_begin_velocity (m, false) = (
  switch (λ s. record s { servo_active = false; bemf_active = false; cogging_active = false }) m,
  false,
)

unfoldable pub begin_velocity : {fl : Floats} → Readings fl → Motor fl → Motor fl × Bool
begin_velocity {fl} r m = finish_begin_velocity (
    prime_foc r.electrical_rad (fl.lit 0 0) (fl.lit 0 0) r (
      switch (λ s. record s { servo_active = true })
        (call (start_servo_velocity r.session_velocity) (call reset_pll (call sample_blocking m)))))

-- Both sessions ask first that the PLL has an angle.
unfoldable pub begin_bemf_if :
    {fl : Floats} → Bool → CalibrationCommand fl → Readings fl → Motor fl → Motor fl × Bool
begin_bemf_if false c r m = (m, false)
begin_bemf_if {fl} true c r m =
    let speed = above_or fl (fl.lit 1 0) (fl.lit 60 0) c.bemf_max_speed_rad_s in
    begin_velocity r (
      switch (λ s. record s { bemf_active = true })
        (call (start_bemf r.foc_resistance_ohm speed (count_or_default c.bemf_points)) m))

unfoldable pub begin_cogging_if :
    {fl : Floats} → Bool → CalibrationCommand fl → Readings fl → Motor fl → Motor fl × Bool
begin_cogging_if false c r m = (m, false)
begin_cogging_if {fl} true c r m =
    let speed = above_or fl (fl.lit 5 2) (fl.lit 5 0) c.cogging_velocity_rad_s in
    let revs = above_or fl (fl.lit 0 0) (fl.lit 4 0) c.cogging_record_revs in
    begin_velocity r
      (switch (λ s. record s { cogging_active = true }) (call (start_cogging speed revs) m))

-- The current and the speed of an encoder session.
unfoldable pub encoder_current : (fl : Floats) → fl.F → fl.F
encoder_current fl c =
    let given = above_or fl (fl.lit 5 2) (fl.lit 1 0) c in
    if fl.lt (fl.lit 2 0) given then fl.lit 2 0 else given

unfoldable pub encoder_speed : (fl : Floats) → Bool → fl.F → fl.F
encoder_speed fl lock c =
    let magnitude = if fl.lt c (fl.lit 0 0) then fl.neg c else c in
    let raised = if fl.le magnitude (fl.lit 1 0) then fl.lit 40 0 else magnitude in
    if lock then fl.lit 0 0 else if fl.lt (fl.lit 80 0) raised then fl.lit 80 0 else raised

-- The branch of the encoder, by lock or by spin. `StartEncoderPhase` begins the encoder's raw mode.
unfoldable pub finish_encoder : {fl : Floats} → Bool → Readings fl → Motor fl → Motor fl × Bool
finish_encoder true r m = (drive r m, true)
finish_encoder false r m = (
  switch (λ s. record s { foc_active = false; encoder_phase_active = false })
      (call restore_calibration m),
  false,
)

unfoldable pub begin_encoder :
    {fl : Floats} → Bool → CalibrationCommand fl → Readings fl → Motor fl → Motor fl × Bool
begin_encoder {fl} lock c r m =
    let current_A = encoder_current fl c.encoder_current_A in
    let speed = encoder_speed fl lock c.encoder_electrical_speed_rad_s in
    let pairs = above_or fl (fl.lit 0 0) (fl.lit 1 0) c.pole_pairs in
    let session =
      call (start_encoder_phase lock current_A speed pairs (fl.lit 3 0))
        (call begin_calibration m) in
    finish_encoder r.foc_ok r (
      switch (λ s. record s { encoder_phase_active = true; foc_active = true })
        (record (call (set_omega (fl.lit 0 0) (fl.lit 0 0))
          (call (start_foc (fl.lit 0 0) current_A (fl.lit 0 0)) session)) {
            last_current = r.sample;
          }))

-- The branches of `StartCalibration` that start a session; an abort does not get here.
unfoldable pub begin_session :
    {fl : Floats}
    → CalibrationKind
    → CalibrationCommand fl
    → Readings fl
    → Motor fl
    → Motor fl × Bool
begin_session resistance c r m = begin_resistance c r m
begin_session inductance c r m = begin_inductance c r m
begin_session bemf c r m = begin_bemf_if r.theta_valid c r m
begin_session cogging c r m = begin_cogging_if r.theta_valid c r m
begin_session encoder_lock c r m = begin_encoder true c r m
begin_session encoder_phase c r m = begin_encoder false c r m
begin_session abort c r m = (m, false)

-- What follows the session's start in `StartCalibration`.
unfoldable pub finish_start : {fl : Floats} → Readings fl → Motor fl × Bool → Motor fl × Result
finish_start r (m, true) = (go calibration r m, ok)
finish_start r (m, false) = (m, failed)

-- The guards of `StartCalibration` of a session, by the PWM's test and the encoder's, and the session.
unfoldable pub start_session_if :
    {fl : Floats}
    → Bool
    → Bool
    → CalibrationKind
    → CalibrationCommand fl
    → Readings fl
    → Motor fl
    → Motor fl × Result
start_session_if false usable kind c r m = (m, not_ready)
start_session_if true false kind c r m = (m, failed)
start_session_if true true kind c r m =
    finish_start r
      (begin_session kind c r (call (set_last_kind (calibration_kind_id kind)) (stop m)))

unfoldable pub start_session :
    {fl : Floats}
    → CalibrationKind
    → CalibrationCommand fl
    → Readings fl
    → Motor fl
    → Motor fl × Result
start_session kind c r m =
    start_session_if r.pwm_init_ok (not (needs_encoder kind) || r.encoder_valid) kind c r m

-- `StartCalibration`
unfoldable pub do_start_calibration :
    {fl : Floats}
    → CalibrationKind
    → CalibrationCommand fl
    → Readings fl
    → Motor fl
    → Motor fl × Result
do_start_calibration abort c r m = (stop m, ok)
do_start_calibration kind c r m = start_session kind c r m

unfoldable pub start_calibration :
    {fl : Floats} → CalibrationCommand fl → Readings fl → Motor fl → Motor fl × Result
start_calibration c r m = do_start_calibration c.kind c r m
