-- ===== src/Boot/Server/Memory.antt =====
-- What the commands of the bootloader can touch: the application's flash, and the boot-request word.
use spcd_actuator.Prelude.{ℕ, ◌+◌, ◌≤◌, ◌<◌, ◌≡◌, ◌⊎◌, List, [], ◌∷◌, sym, ◌∙◌, arith, inl, inr}
use mathlib.Core.Path.{subst}
use spcd_actuator.Boot.Text.{next_token}
use spcd_actuator.Boot.Flash.{FlashHw, Writer, app_start, flash_end}
use spcd_actuator.Boot.Flash.Bounds.{
  IsConfined, HasGoodShadow, IsContained, lock-IsContained, unlock-IsContained,
}
use spcd_actuator.Boot.Server.{
  Server, CanFrame, run_command, run_line, boot_magic_addr, write_response, answer, read_counted,
  read_frame, step, steps,
}
use spcd_actuator.Boot.Server.Writes.{
  IsContained-refl, run_write-IsContained, flash-run_read, run_command_flash,
}

-- A store of a word changes the four bytes at its address only.
unfoldable pub IsStoring : FlashHw → Type 0
IsStoring hw =
    (address value a : ℕ) (m : hw.Mem)
    → (a < address) ⊎ (address + 4 ≤ a)
    → hw.read (hw.store_word address value m) a ≡ hw.read m a

-- The shadow is good, and memory is untouched outside the application's flash and the boot-request
-- word.
record IsKept (hw : FlashHw) (w w' : Writer hw) : Type 0 where
  shadow_good : HasGoodShadow hw w'
  same_outside :
      (a : ℕ)
      → (a < app_start) ⊎ (flash_end ≤ a)
      → (a < boot_magic_addr) ⊎ (boot_magic_addr + 4 ≤ a)
      → hw.read w'.mem a ≡ hw.read w.mem a

module _ (hw : FlashHw) (c : IsConfined hw) (st : IsStoring hw) where
  IsKept-of : (u v : Writer hw) → IsContained hw u v → IsKept hw u v
  IsKept-of u v h = record {
    shadow_good = h.shadow_good;
    same_outside = λ a o w. h.same_outside a o;
  }

  IsKept-trans : (u v w : Writer hw) → IsKept hw u v → IsKept hw v w → IsKept hw u w
  IsKept-trans u v w h k = record {
    shadow_good = k.shadow_good;
    same_outside = λ a o b. k.same_outside a o b ∙ h.same_outside a o b;
  }

  stored-IsKept :
      (u v : Writer hw)
      → IsContained hw u v
      → IsKept hw u (record v { mem = hw.store_word boot_magic_addr 0 v.mem })
  unfolding IsStoring
  stored-IsKept u v h = record {
    shadow_good = h.shadow_good;
    same_outside = λ a o b. st boot_magic_addr 0 a v.mem b ∙ h.same_outside a o;
  }

  run_command-IsKept :
      (word rest : List ℕ) (s : Server hw)
      → HasGoodShadow hw s.flash
      → IsKept hw s.flash (run_command hw word rest s).0.flash
  run_command-IsKept word rest s h = elim (run_command_flash hw c word rest s) [
    | inl e ↦ subst (IsKept hw s.flash) (sym e) (IsKept-of _ _ (IsContained-refl hw c s.flash h))
    | inr (inl e) ↦
        subst (IsKept hw s.flash) (sym e) (IsKept-of _ _ (unlock-IsContained hw c s.flash))
    | inr (inr (inl e)) ↦
        subst (IsKept hw s.flash) (sym e) (IsKept-of _ _ (lock-IsContained hw c s.flash h))
    | inr (inr (inr (inl e))) ↦
        subst (IsKept hw s.flash) (sym e) (stored-IsKept _ _ (lock-IsContained hw c s.flash h))
    | inr (inr (inr (inr (inl e)))) ↦
        subst (IsKept hw s.flash) (sym e) (IsKept-of _ _ (run_write-IsContained hw c rest s h))
    | inr (inr (inr (inr (inr e)))) ↦
        subst (IsKept hw s.flash) (sym (e ∙ flash-run_read hw c rest s))
          (IsKept-of _ _ (IsContained-refl hw c s.flash h))
  ]

  run_line_flash :
      (s : Server hw)
      → let (word, rest) = next_token s.command in
        ((run_line hw s).0.flash ≡ s.flash)
        ⊎ ((run_line hw s).0.flash ≡ (run_command hw word rest s).0.flash)
  unfolding run_line
  run_line_flash s = ground arith

  run_line-IsKept :
      (s : Server hw) → HasGoodShadow hw s.flash → IsKept hw s.flash (run_line hw s).0.flash
  run_line-IsKept s h = elim (run_line_flash s) [
    | inl e ↦ subst (IsKept hw s.flash) (sym e) (IsKept-of _ _ (IsContained-refl hw c s.flash h))
    | inr e ↦
        subst (IsKept hw s.flash) (sym e)
          (run_command-IsKept (next_token s.command).0 (next_token s.command).1 s h)
  ]

  flash-read_frame : (frame : CanFrame) (s : Server hw) → (read_frame hw frame s).0.flash ≡ s.flash
  unfolding read_frame read_counted answer write_response
  flash-read_frame frame s = ground arith

  step-IsKept :
      (frame : CanFrame) (s : Server hw)
      → HasGoodShadow hw s.flash
      → IsKept hw s.flash (step hw frame s).0.flash
  unfolding step
  step-IsKept frame s h =
      subst (λ w. IsKept hw w (run_line hw (read_frame hw frame s).0).0.flash)
        (flash-read_frame frame s)
        (run_line-IsKept (read_frame hw frame s).0
          (subst (HasGoodShadow hw) (sym (flash-read_frame frame s)) h))

  steps_flash :
      (frame : CanFrame) (frames : List CanFrame) (s : Server hw)
      → ((steps hw (frame ∷ frames) s).flash ≡ (step hw frame s).0.flash)
        ⊎ ((steps hw (frame ∷ frames) s).flash ≡ (steps hw frames (step hw frame s).0).flash)
  unfolding steps
  steps_flash frame frames s = ground arith

  steps-IsKept :
      (frames : List CanFrame) (s : Server hw)
      → HasGoodShadow hw s.flash
      → IsKept hw s.flash (steps hw frames s).flash
  unfolding steps
  steps-IsKept [] s h = IsKept-of _ _ (IsContained-refl hw c s.flash h)
  steps-IsKept (frame ∷ frames) s h =
      let one = step-IsKept frame s h in
      elim (steps_flash frame frames s) [
        | inl e ↦ subst (IsKept hw s.flash) (sym e) one
        | inr e ↦ subst (IsKept hw s.flash) (sym e) (
            IsKept-trans s.flash (step hw frame s).0.flash
              (steps hw frames (step hw frame s).0).flash one
              (steps-IsKept frames (step hw frame s).0 one.shadow_good))
      ]

  -- Whatever frames the bootloader receives, in any number, and whatever the outcomes of the flash
  -- controller are: the memory below the application's start (the vectors and the bootloader itself)
  -- and from the end of the flash on reads as before, but for the four bytes of the boot-request word,
  -- which the reset command clears.
  pub serve_keeps_outside :
      (frames : List CanFrame) (s : Server hw) (a : ℕ)
      → HasGoodShadow hw s.flash
      → (a < app_start) ⊎ (flash_end ≤ a)
      → (a < boot_magic_addr) ⊎ (boot_magic_addr + 4 ≤ a)
      → hw.read (steps hw frames s).flash.mem a ≡ hw.read s.flash.mem a
  serve_keeps_outside frames s a h o b = (steps-IsKept frames s h).same_outside a o b
