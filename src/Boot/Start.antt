-- ===== src/Boot/Start.antt =====
-- fw/bootloader/src/bootloader.cc: the boot state machine, and the request that the application
-- leaves in RAM (enter_bootloader.cc). LEDs, delays and clock registers are left out.
mod Decision
mod Tests
use spcd_actuator.Prelude.{
  ℕ, zero, suc, ◌%◌, Bool, true, false, ◌&&◌, ◌||◌, not, Option, none, some, if◌then◌else◌, ltb,
  leb, ◌==◌,
}
use spcd_actuator.Boot.Flash.{app_start, flash_end}

-- `kBootMagicValue`
abbrev pub boot_magic_value : ℕ
boot_magic_value = 0xB00710AD

-- `BootState`
pub data BootState : Type 0 where
  init_hardware decide jump_to_app enter_serve serve : BootState

-- The first two words of the application's vector table, as they stand in flash.
pub record Vectors : Type 0 where
  pub sp : ℕ
  pub pc : ℕ

-- The state machine, the word at `kBootMagicAddr`, whether interrupts are disabled, and the
-- application once it is entered: the machine makes no further pass then.
pub record Orchestrator : Type 0 where
  pub state : BootState
  pub magic : ℕ
  pub irq_disabled : Bool
  pub entered : Option Vectors

-- `IsBootloaderRequested`
pub is_bootloader_requested : ℕ → Bool
is_bootloader_requested magic = magic == boot_magic_value

-- `Decide`
pub run_decide : Orchestrator → Orchestrator
unfolding is_bootloader_requested
run_decide o =
    if is_bootloader_requested o.magic
    then record o { magic = 0; state = enter_serve }
    else record o { state = jump_to_app }

-- The two tests of `JumpToApp`: `sp & 0x7` and `pc & 1` are remainders.
pub vectors_ok : Vectors → Bool
vectors_ok v =
    not (ltb v.sp 0x20000200 || (ltb 0x20020000 v.sp || not (v.sp % 8 == 0)))
    && not (ltb v.pc app_start || (leb flash_end v.pc || not (v.pc % 2 == 1)))

-- `case BootState::JUMP_TO_APP`: interrupts are enabled again before the branch to `pc`.
pub run_jump : Vectors → Orchestrator → Orchestrator
run_jump v o =
    if vectors_ok v
    then record o { irq_disabled = false; entered = some v }
    else record o { state = enter_serve }

-- One pass of the loop in `Run`; `Serve` does not return, and is a pass that changes nothing here.
pub pass_from : BootState → Vectors → Orchestrator → Orchestrator
unfolding run_decide run_jump
pass_from init_hardware v o = record o { state = decide }
pass_from decide v o = run_decide o
pass_from jump_to_app v o = run_jump v o
pass_from enter_serve v o = record o { irq_disabled = true; state = serve }
pass_from serve v o = o

pub pass : Vectors → Orchestrator → Orchestrator
unfolding pass_from
pass v o = elim o.entered [ none ↦ pass_from o.state v o | some _ ↦ o ]

pub passes : ℕ → Vectors → Orchestrator → Orchestrator
unfolding pass
passes zero v o = o
passes (suc n) v o = passes n v (pass v o)

-- A reset: RAM keeps the word at `kBootMagicAddr`.
pub reset : ℕ → Orchestrator
reset magic = record { state = init_hardware; magic = magic; irq_disabled = false; entered = none }

-- `EnterBootloader` of the application, up to the reset that it makes.
pub enter_bootloader : ℕ → ℕ
enter_bootloader magic = boot_magic_value
