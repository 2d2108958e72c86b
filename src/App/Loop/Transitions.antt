-- ===== src/App/Loop/Transitions.antt =====
-- The lifecycle transitions that one pass of the loop, and whole runs, can make.
use spcd_actuator.Prelude.{ℕ, suc, true, false, ◌&&◌, List, [], ◌∷◌, ◌≡◌, ◌⊎◌, refl, arith}
use spcd_actuator.App.Lifecycle.{State, init, init_failed, run, driver_fault, enter_bootloader}
use spcd_actuator.App.Loop.{Answers, Application, Call, poll_commands, step, run_passes}

-- The diagram: which state may follow which in one pass, and on what answers.
pub data Edge (r : Answers) : State → State → Type 0 where
  bring_up :
      r.gate_driver_ok ≡ true
      → r.current_sense_ok ≡ true
      → r.current_offset_ok ≡ true
      → r.pwm_ok ≡ true
      → r.sampling_ok ≡ true
      → r.runtime_config_ok ≡ true
      → Edge r init run
  bring_up_fails :
      (r.gate_driver_ok
          && (r.current_sense_ok
              && (r.current_offset_ok && (r.pwm_ok && (r.sampling_ok && r.runtime_config_ok)))))
        ≡ false
      → Edge r init init_failed
  latch : r.bootloader_requested ≡ false → Edge r init_failed init_failed
  rescue : r.bootloader_requested ≡ true → Edge r init_failed enter_bootloader
  fault : r.driver_faulted ≡ true → Edge r run driver_fault
  leave : r.driver_faulted ≡ false → r.bootloader_requested ≡ true → Edge r run enter_bootloader
  keep : r.driver_faulted ≡ false → r.bootloader_requested ≡ false → Edge r run run
  recover : r.bootloader_requested ≡ false → r.recovered ≡ true → Edge r driver_fault run
  persist : r.bootloader_requested ≡ false → r.recovered ≡ false → Edge r driver_fault driver_fault
  abandon : r.bootloader_requested ≡ true → Edge r driver_fault enter_bootloader
  depart : Edge r enter_bootloader enter_bootloader

-- One pass of the loop, from any state and on any answers of the services, follows an edge of the
-- lifecycle diagram, with the condition that the edge carries.
pub step-Edge : (r : Answers) (a : Application) → Edge r a.state (step r a).state
unfolding step
step-Edge r a = grind (
  arith, bring_up, bring_up_fails, latch, rescue, fault, leave, keep, recover, persist, abandon,
  depart,
)

abbrev pub count_control : List Call → ℕ
count_control [] = 0
count_control (poll_commands true f ∷ cs) = suc (count_control cs)
count_control (_ ∷ cs) = count_control cs

abbrev IsLatched : State → Type 0
IsLatched s = (s ≡ init_failed) ⊎ (s ≡ enter_bootloader)

step-IsLatched :
    (r : Answers) (a : Application)
    → IsLatched a.state
    → IsLatched (step r a).state × (count_control (step r a).calls ≡ count_control a.calls)
unfolding step
step-IsLatched r a h = ground arith

-- After a failed initialization no run of the loop, whatever the services answer, gets anywhere but
-- to the bootloader, and no command poll of that run allows control.
pub init_failure_latches :
    (rs : List Answers) (a : Application)
    → (a.state ≡ init_failed) ⊎ (a.state ≡ enter_bootloader)
    → (((run_passes rs a).state ≡ init_failed) ⊎ ((run_passes rs a).state ≡ enter_bootloader))
      × (count_control (run_passes rs a).calls ≡ count_control a.calls)
unfolding run_passes
init_failure_latches [] a h = (h, refl)
init_failure_latches (r ∷ rs) a h =
    ground (arith, step-IsLatched r a h, init_failure_latches rs (step r a))
