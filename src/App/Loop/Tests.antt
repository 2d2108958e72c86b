-- ===== src/App/Loop/Tests.antt =====
-- The theorems on the main loop at concrete passes.
use spcd_actuator.Prelude.{true, false, [], ◌∷◌, ◌≡◌, ◌⊎◌, inl, refl, arith}
use spcd_actuator.App.Lifecycle.{init_failed, run, enter_bootloader, command_deadline_expired}
use spcd_actuator.App.Loop.{
  Answers, Application, feed_watchdog, stop_motor, persist_pending, poll_commands, poll_telemetry,
  set_status_indicator, step, run_passes, run_application,
}
use spcd_actuator.App.Loop.Transitions.{init_failure_latches, count_control}
use spcd_actuator.App.Loop.Safety.{IsSafe, run_application-IsSafe}
use spcd_actuator.App.Loop.Deadline.{deadline_across_wrap}

-- All is well, and no frame comes in.
abbrev quiet : Answers
quiet = record {
  gate_driver_ok = true;
  current_sense_ok = true;
  current_offset_ok = true;
  pwm_ok = true;
  sampling_ok = true;
  runtime_config_ok = true;
  driver_faulted = false;
  has_pending_persist = true;
  received_frame = false;
  bootloader_requested = false;
  motor_active = true;
  recovered = false;
  init_us = 100;
  poll_us = 600000;
  deadline_us = 600200;
}

abbrev no_pwm : Answers
no_pwm = record quiet { pwm_ok = false }

abbrev boot : Answers
boot = record quiet { bootloader_requested = true; received_frame = true }

abbrev operating : Application
operating = record { state = run; last_receive_us = 100; calls = [] }

abbrev broken : Application
broken = record { state = init_failed; last_receive_us = 0; calls = [] }

timeout_stops :
    (step quiet operating).calls
    ≡ set_status_indicator true
      ∷ poll_telemetry
      ∷ stop_motor
      ∷ poll_commands true false
      ∷ persist_pending true
      ∷ stop_motor
      ∷ feed_watchdog
      ∷ []
unfolding step
timeout_stops = refl

init_failure_latches_example :
    (((run_passes (no_pwm ∷ boot ∷ quiet ∷ []) broken).state ≡ init_failed)
      ⊎ ((run_passes (no_pwm ∷ boot ∷ quiet ∷ []) broken).state ≡ enter_bootloader))
    × (count_control (run_passes (no_pwm ∷ boot ∷ quiet ∷ []) broken).calls ≡ 0)
init_failure_latches_example = init_failure_latches (no_pwm ∷ boot ∷ quiet ∷ []) broken (inl refl)

run_application-IsSafe_example : IsSafe (run_application (quiet ∷ quiet ∷ boot ∷ quiet ∷ [])).calls
run_application-IsSafe_example = run_application-IsSafe (quiet ∷ quiet ∷ boot ∷ quiet ∷ [])

deadline_across_wrap_example : command_deadline_expired true 499999 4294967295 500000 ≡ true
deadline_across_wrap_example = deadline_across_wrap 4294967295 500000 (omega arith) (omega arith)
