-- ===== src/App/Loop.antt =====
-- application.cc: one pass of `Application::Run` and the functions that it calls.
-- The services are virtual interfaces or other components. What they answer during one pass is an
-- argument, `Answers`; what the application asks of them is kept in `calls`, newest first.
mod Transitions
mod Safety
mod Deadline
mod Tests
use spcd_actuator.Prelude.{ℕ, Bool, true, false, List, [], ◌∷◌, if◌then◌else◌}
use spcd_actuator.App.Lifecycle.{
  State, init, init_failed, run, driver_fault, enter_bootloader, complete_initialization,
  detect_driver_fault, complete_driver_recovery, request_bootloader, is_command_activity,
  command_deadline_expired,
}

-- The calls of `Application` into its dependencies that act on them.
pub data Call : Type 0 where
  start_watchdog feed_watchdog : Call
  initialize_status_indicator initialize_gate_driver initialize_current_sense : Call
  calibrate_current_offset initialize_pwm start_synchronized_current_sampling : Call
  encoder_init runtime_config_initialize : Call
  set_status_indicator : Bool → Call
  stop_motor disable_power_stage indicate_driver_fault try_recover_driver_fault : Call
  -- `calibration_.PersistPending()`, with the answer of `has_pending_persist()` just before it
  persist_pending : Bool → Call
  -- `commands_.Poll(CommandPollContext{control_allowed, driver_fault})`
  poll_commands : Bool → Bool → Call
  poll_telemetry platform_enter_bootloader : Call

-- What the services answer in one pass of the loop.
pub record Answers : Type 0 where
  pub gate_driver_ok : Bool
  pub current_sense_ok : Bool
  pub current_offset_ok : Bool
  pub pwm_ok : Bool
  pub sampling_ok : Bool
  pub runtime_config_ok : Bool
  pub driver_faulted : Bool
  pub has_pending_persist : Bool
  pub received_frame : Bool
  pub bootloader_requested : Bool
  pub motor_active : Bool
  pub recovered : Bool
  -- `MonotonicUs()` during initialization, after the command poll, and at the deadline test
  pub init_us : ℕ
  pub poll_us : ℕ
  pub deadline_us : ℕ

-- The members of `Application` that change, and the calls made so far.
pub record Application : Type 0 where
  pub state : State
  pub last_receive_us : ℕ
  pub calls : List Call

abbrev pub call : Call → Application → Application
call c a = record a { calls = c ∷ a.calls }

-- `kCommandTimeoutUs`
abbrev pub command_timeout_us : ℕ
command_timeout_us = 500000

pub stop_motor_now : Application → Application
stop_motor_now a = call stop_motor a

-- `Initialize()`: the updated application and the returned flag.
pub initialize : Answers → Application → Application × Bool
initialize r a0 =
    let a1 = call initialize_gate_driver (call initialize_status_indicator a0) in
    let a2 = call initialize_current_sense a1 in
    let a3 = call calibrate_current_offset a2 in
    let a4 = call initialize_pwm a3 in
    let a5 = call start_synchronized_current_sampling a4 in
    let a6 = call runtime_config_initialize (call encoder_init a5) in
    let a7 = record (call (set_status_indicator true) a6) { last_receive_us = r.init_us } in
    if r.gate_driver_ok
    then (if r.current_sense_ok
        then (if r.current_offset_ok
            then (if r.pwm_ok
                then (if r.sampling_ok
                    then (if r.runtime_config_ok then (a7, true) else (a6, false))
                    else (a5, false))
                else (a4, false))
            else (a3, false))
        else (a2, false))
    else (a1, false)

-- `PollCommandIngress`
pub poll_command_ingress : Bool → Bool → Answers → Application → Application
unfolding request_bootloader stop_motor_now
poll_command_ingress control_allowed fault r a =
    let polled = call (poll_commands control_allowed fault) a in
    let noted =
      if is_command_activity r.bootloader_requested r.received_frame
      then record polled { last_receive_us = r.poll_us }
      else polled in
    if r.bootloader_requested
    then call disable_power_stage
        (stop_motor_now (record noted { state = request_bootloader noted.state }))
    else noted

-- `EnforceCommandTimeout`
pub enforce_command_timeout : Answers → Application → Application
unfolding stop_motor_now
enforce_command_timeout r a =
    if command_deadline_expired r.motor_active r.deadline_us a.last_receive_us command_timeout_us
    then stop_motor_now a
    else a

-- The rest of `RunOperational` after the command poll: `if (state() != State::RUN) return;`.
pub after_ingress : Answers → State → Application → Application
unfolding enforce_command_timeout
after_ingress r run a =
    call (set_status_indicator true) (call poll_telemetry (enforce_command_timeout r a))
after_ingress r _ a = a

pub run_operational : Answers → Application → Application
unfolding detect_driver_fault stop_motor_now poll_command_ingress after_ingress
run_operational r a =
    let faulted =
      call disable_power_stage
        (stop_motor_now (record a { state = detect_driver_fault a.state })) in
    let safe = if r.has_pending_persist then stop_motor_now a else a in
    let polled =
      poll_command_ingress true false r (call (persist_pending r.has_pending_persist) safe) in
    if r.driver_faulted then faulted else after_ingress r polled.state polled

-- `if (state() == State::ENTER_BOOTLOADER) return; platform_.IndicateDriverFault();`
pub indicate_unless_leaving : State → Application → Application
indicate_unless_leaving enter_bootloader a = a
indicate_unless_leaving _ a = call indicate_driver_fault a

pub run_initialization_failure : Answers → Application → Application
unfolding stop_motor_now poll_command_ingress indicate_unless_leaving
run_initialization_failure r a =
    let polled = poll_command_ingress false true r (call disable_power_stage (stop_motor_now a)) in
    indicate_unless_leaving polled.state polled

-- The rest of `RunDriverFault` after the command poll.
pub attempt_recovery : Answers → State → Application → Application
unfolding complete_driver_recovery
attempt_recovery r enter_bootloader a = a
attempt_recovery r _ a =
    let tried = call try_recover_driver_fault a in
    let lit = call (set_status_indicator true) tried in
    if r.recovered
    then record lit { state = complete_driver_recovery true lit.state }
    else call indicate_driver_fault tried

pub run_driver_fault : Answers → Application → Application
unfolding stop_motor_now poll_command_ingress attempt_recovery
run_driver_fault r a =
    let polled = poll_command_ingress false true r (call disable_power_stage (stop_motor_now a)) in
    attempt_recovery r polled.state polled

pub run_bootloader_transition : Application → Application
unfolding stop_motor_now
run_bootloader_transition a = call platform_enter_bootloader (stop_motor_now a)

-- The `case State::INIT` of the loop.
pub run_init : Answers → Application → Application
unfolding initialize complete_initialization
run_init r a =
    let (a', ok) = initialize r a in record a' { state = complete_initialization ok a'.state }

-- The `switch` of `Run`.
pub dispatch : State → Answers → Application → Application
unfolding run_init run_initialization_failure run_operational run_driver_fault
    run_bootloader_transition
dispatch init r a = run_init r a
dispatch init_failed r a = run_initialization_failure r a
dispatch run r a = run_operational r a
dispatch driver_fault r a = run_driver_fault r a
dispatch enter_bootloader r a = run_bootloader_transition a

-- One pass of `while (true)` in `Run`.
pub step : Answers → Application → Application
unfolding dispatch
step r a = dispatch a.state r (call feed_watchdog a)

-- Passes of the loop, one for each element. `RunBootloaderTransition` does not return, so the
-- passes end with it.
pub run_passes : List Answers → Application → Application
run_passes [] a = a
run_passes (r ∷ rs) a = elim a.state [ enter_bootloader ↦ step r a | _ ↦ run_passes rs (step r a) ]

-- `Run()` from the constructor's state.
pub run_application : List Answers → Application
unfolding run_passes
run_application rs =
    run_passes rs (call start_watchdog (record { state = init; last_receive_us = 0; calls = [] }))
