-- ===== src/Boot/Start/Decision.antt =====
-- Where a boot ends.
use spcd_actuator.Prelude.{
  ℕ, zero, suc, ◌%◌, ◌≤◌, ◌<◌, ◌≡◌, ◌↔◌, refl, arith, true, false, none, some, if◌then◌else◌, ◌==◌,
}
use spcd_actuator.Boot.Flash.{app_start, flash_end}
use spcd_actuator.Boot.Start.{
  serve, jump_to_app, Vectors, Orchestrator, boot_magic_value, vectors_ok, passes, reset,
  enter_bootloader,
}

-- The tests of `JumpToApp` accept exactly the vectors whose stack pointer is aligned to 8 and lies
-- in RAM, and whose entry is a Thumb address of the application's flash.
pub vectors_ok_iff :
    (v : Vectors)
    → (vectors_ok v ≡ true) ↔ (
        (0x20000200 ≤ v.sp)
        × (v.sp ≤ 0x20020000)
        × (v.sp % 8 ≡ 0)
        × (app_start ≤ v.pc)
        × (v.pc < flash_end)
        × (v.pc % 2 ≡ 1))
unfolding vectors_ok
vectors_ok_iff v = ground arith

passes_served :
    (n : ℕ) (v : Vectors) (o : Orchestrator) → o.state ≡ serve → o.entered ≡ none → passes n v o ≡ o
unfolding passes
passes_served zero v o e h = refl
passes_served (suc n) v o e h = ground (arith, passes_served n v o e h)

passes_entered : (n : ℕ) (v w : Vectors) (o : Orchestrator) → o.entered ≡ some w → passes n v o ≡ o
unfolding passes
passes_entered zero v w o h = refl
passes_entered (suc n) v w o h = ground (arith, passes_entered n v w o h)

abbrev served : ℕ → Orchestrator
served magic = record { state = serve; magic = magic; irq_disabled = true; entered = none }

-- Where every boot has ended after four passes, and stays: a boot that finds the request serves the
-- bootloader, with the request consumed; another boot enters the application if its vectors are
-- accepted, and serves the bootloader if they are not.
pub boot_lem :
    (n magic : ℕ) (v : Vectors)
    → let end = passes (suc (suc (suc (suc n)))) v (reset magic) in
      end ≡ (
        if magic == boot_magic_value
        then record { state = serve; magic = 0; irq_disabled = true; entered = none }
        else if vectors_ok v
        then record { state = jump_to_app; magic = magic; irq_disabled = false; entered = some v }
        else record { state = serve; magic = magic; irq_disabled = true; entered = none })
unfolding passes reset
boot_lem n magic v = ground (
  arith,
  passes_served n v (served 0) refl refl,
  passes_served n v (served magic) refl refl,
  passes_entered n v v (record (reset magic) { state = jump_to_app; entered = some v }) refl,
)

-- The request of the application holds for one boot: that boot serves the bootloader, and the boot
-- after it enters the application, if its vectors are accepted.
pub request_once :
    (n magic : ℕ) (v : Vectors)
    → vectors_ok v ≡ true
    → let first = passes (suc (suc (suc (suc n)))) v (reset (enter_bootloader magic)) in
      (first.state ≡ serve)
      × ((passes (suc (suc (suc (suc n)))) v (reset first.magic)).entered ≡ some v)
unfolding enter_bootloader
request_once n magic v h = ground (arith, boot_lem n (enter_bootloader magic) v, boot_lem n 0 v)
