-- ===== src/App/Loop/Deadline.antt =====
-- The command deadline and the bootloader request.
use spcd_actuator.Prelude.{ℕ, ◌<◌, ◌+◌, ◌%◌, true, false, ◌∷◌, ◌≡◌, ◌⊎◌, arith, leb}
use spcd_actuator.App.Lifecycle.{
  init_failed, run, driver_fault, enter_bootloader, command_deadline_expired,
}
use spcd_actuator.App.Loop.Safety.{NewestTwo}
use spcd_actuator.App.Loop.{
  Answers, Application, feed_watchdog, stop_motor, disable_power_stage, platform_enter_bootloader,
  command_timeout_us, step,
}

-- The clock of the main loop wraps after 2 ^ 32 microseconds. Where less than that has gone by since
-- the last frame, the test of the deadline tells the true elapsed time.
pub deadline_across_wrap :
    (last elapsed : ℕ)
    → last < 4294967296
    → elapsed < 4294967296
    → command_deadline_expired true ((last + elapsed) % 4294967296) last command_timeout_us
      ≡ leb command_timeout_us elapsed
deadline_across_wrap last elapsed h k = ground arith

-- From every state that polls commands, a request for the bootloader stops the motor and shuts the
-- power stage down in the same pass, and the next pass jumps to the bootloader after another stop.
pub bootloader_request_lem :
    (r r' : Answers) (a : Application)
    → (a.state ≡ init_failed)
      ⊎ ((a.state ≡ driver_fault) ⊎ ((a.state ≡ run) × (r.driver_faulted ≡ false)))
    → r.bootloader_requested ≡ true
    → ((step r a).state ≡ enter_bootloader)
      × ((step r' (step r a)).calls
          ≡ platform_enter_bootloader ∷ stop_motor ∷ feed_watchdog ∷ (step r a).calls)
      × NewestTwo disable_power_stage stop_motor (step r a).calls
unfolding step
bootloader_request_lem r r' a h b = ground arith
