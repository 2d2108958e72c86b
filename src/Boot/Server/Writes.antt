-- ===== src/Boot/Server/Writes.antt =====
-- What each command of the bootloader makes of the flash writer.
use spcd_actuator.Prelude.{
  ℕ, zero, suc, ◌+◌, ◌≤◌, ◌<◌, ◌≡◌, ◌⊎◌, List, [], ◌∷◌, refl, sym, ◌∙◌, arith, inl, inr,
  Option-cases, u8, u32, Bool-cases, length, ◌%◌, ◌==◌, ◌||◌,
}
use mathlib.Core.Path.{subst}
use spcd_actuator.Boot.Hex.{hex_to_i, uint32_hex}
use spcd_actuator.Boot.Text.{next_token, chars}
use spcd_actuator.Boot.Flash.{FlashHw, Writer, app_start, flash_end, lock, unlock, program_byte}
use spcd_actuator.Boot.Flash.Bounds.{
  IsConfined, HasGoodShadow, IsContained, program_byte-IsContained,
}
use spcd_actuator.Boot.Server.{
  Server, write_byte, write_bytes, write_flash, say_bytes, read_range, read_flash, run_write,
  run_read, run_unlock, run_lock, run_command, boot_magic_addr, clear_boot_magic, say,
}

module _ (hw : FlashHw) (c : IsConfined hw) where
  pub IsContained-refl : (w : Writer hw) → HasGoodShadow hw w → IsContained hw w w
  IsContained-refl w h = record { shadow_good = h; same_outside = λ a o. refl }

  IsContained-trans :
      (u v w : Writer hw) → IsContained hw u v → IsContained hw v w → IsContained hw u w
  IsContained-trans u v w h k = record {
    shadow_good = k.shadow_good;
    same_outside = λ a o. k.same_outside a o ∙ h.same_outside a o;
  }

  -- What a write of a byte makes of the flash writer.
  write_byte_flash :
      (address byte : ℕ) (s : Server hw)
      → ((write_byte hw address byte s).0.flash ≡ s.flash)
        ⊎ (((write_byte hw address byte s).0.flash ≡ (program_byte hw address byte s.flash).0)
            × (app_start ≤ address)
            × (address < flash_end))
  unfolding write_byte
  write_byte_flash address byte s = ground arith

  write_byte-IsContained :
      (address byte : ℕ) (s : Server hw)
      → HasGoodShadow hw s.flash
      → IsContained hw s.flash (write_byte hw address byte s).0.flash
  write_byte-IsContained address byte s h = elim (write_byte_flash address byte s) [
    | inl e ↦ rw e (IsContained-refl s.flash h)
    | inr (e, lo, hi) ↦ rw e (program_byte-IsContained hw c address byte s.flash h lo hi)
  ]

  -- What one round of the loop makes of the flash writer.
  write_bytes_flash :
      (address a b : ℕ) (digits : List ℕ) (s : Server hw)
      → let t = (write_bytes hw address (a ∷ b ∷ digits) s).flash in
        (t ≡ s.flash)
        ⊎ ((byte : ℕ) × (let s' = (write_byte hw address (u8 byte) s).0 in
              (t ≡ s'.flash) ⊎ (t ≡ (write_bytes hw (u32 (address + 1)) digits s').flash)))
  unfolding write_bytes
  write_bytes_flash address a b digits s = elim (Option-cases (hex_to_i (a ∷ b ∷ []))) [
    | inl e ↦ inl (ground arith)
    | inr (byte, e) ↦ inr (byte, ground arith)
  ]

  write_bytes-IsContained :
      (address : ℕ) (digits : List ℕ) (s : Server hw)
      → HasGoodShadow hw s.flash
      → IsContained hw s.flash (write_bytes hw address digits s).flash
  unfolding write_bytes
  write_bytes-IsContained address [] s h = IsContained-refl s.flash h
  write_bytes-IsContained address (a ∷ []) s h = IsContained-refl s.flash h
  write_bytes-IsContained address (a ∷ b ∷ digits) s h =
      elim (write_bytes_flash address a b digits s) [
        | inl e ↦ subst (IsContained hw s.flash) (sym e) (IsContained-refl s.flash h)
        | inr (byte, inl e) ↦
            subst (IsContained hw s.flash) (sym e) (write_byte-IsContained address (u8 byte) s h)
        | inr (byte, inr e) ↦ subst (IsContained hw s.flash) (sym e) (
            let one = write_byte-IsContained address (u8 byte) s h in
            IsContained-trans s.flash (write_byte hw address (u8 byte) s).0.flash
              (write_bytes hw (u32 (address + 1)) digits
                (write_byte hw address (u8 byte) s).0).flash
              one
              (write_bytes-IsContained (u32 (address + 1)) digits
                (write_byte hw address (u8 byte) s).0 one.shadow_good))
      ]

  flash-say_bytes : (n address : ℕ) (s : Server hw) → (say_bytes hw n address s).flash ≡ s.flash
  unfolding say_bytes
  flash-say_bytes zero address s = refl
  flash-say_bytes (suc n) address s = flash-say_bytes n (address + 1) _

  flash-read_range : (addr size : ℕ) (s : Server hw) → (read_range hw addr size s).flash ≡ s.flash
  unfolding read_range
  flash-read_range addr size s =
      ground (arith, flash-say_bytes size addr (say hw (chars " ") (say hw (uint32_hex addr) s)))

  flash-read_flash :
      (addr_str size_str : List ℕ) (s : Server hw)
      → (read_flash hw addr_str size_str s).flash ≡ s.flash
  unfolding read_flash
  flash-read_flash addr_str size_str s = elim (Option-cases (hex_to_i addr_str)) [
    | inl e ↦ ground arith
    | inr (addr, e) ↦ elim (Option-cases (hex_to_i size_str)) [
      | inl f ↦ ground arith
      | inr (size, f) ↦ ground (arith, flash-read_range addr size s)
    ]
  ]

  pub flash-run_read : (rest : List ℕ) (s : Server hw) → (run_read hw rest s).flash ≡ s.flash
  unfolding run_read
  flash-run_read rest s =
      ground (arith, flash-read_flash (next_token rest).0 (next_token (next_token rest).1).0 s)

  write_flash_flash :
      (addr_str data_str : List ℕ) (s : Server hw)
      → ((write_flash hw addr_str data_str s).flash ≡ s.flash)
        ⊎ ((addr : ℕ) × ((write_flash hw addr_str data_str s).flash
              ≡ (write_bytes hw addr data_str s).flash))
  unfolding write_flash
  write_flash_flash addr_str data_str s = elim (Option-cases (hex_to_i addr_str)) [
    | inl e ↦ inl (ground arith)
    | inr (addr, e) ↦ elim (Bool-cases (length data_str % 2 == 0)) [
      | inl f ↦ inr (addr, ground arith)
      | inr f ↦ inl (ground arith)
    ]
  ]

  write_flash-IsContained :
      (addr_str data_str : List ℕ) (s : Server hw)
      → HasGoodShadow hw s.flash
      → IsContained hw s.flash (write_flash hw addr_str data_str s).flash
  write_flash-IsContained addr_str data_str s h = elim (write_flash_flash addr_str data_str s) [
    | inl e ↦ subst (IsContained hw s.flash) (sym e) (IsContained-refl s.flash h)
    | inr (addr, e) ↦
        subst (IsContained hw s.flash) (sym e) (write_bytes-IsContained addr data_str s h)
  ]

  run_write_flash :
      (rest : List ℕ) (s : Server hw)
      → ((run_write hw rest s).flash ≡ s.flash)
        ⊎ ((addr_str : List ℕ) × (data_str : List ℕ) × ((run_write hw rest s).flash
              ≡ (write_flash hw addr_str data_str s).flash))
  unfolding run_write
  run_write_flash rest s =
      elim (Bool-cases
        (length (next_token rest).0 == 0 || length (next_token (next_token rest).1).0 == 0)) [
          | inl e ↦ inl (ground arith)
          | inr e ↦ inr ((next_token rest).0, (next_token (next_token rest).1).0, ground arith)
        ]

  pub run_write-IsContained :
      (rest : List ℕ) (s : Server hw)
      → HasGoodShadow hw s.flash
      → IsContained hw s.flash (run_write hw rest s).flash
  run_write-IsContained rest s h = elim (run_write_flash rest s) [
    | inl e ↦ subst (IsContained hw s.flash) (sym e) (IsContained-refl s.flash h)
    | inr (addr_str, data_str, e) ↦
        subst (IsContained hw s.flash) (sym e) (write_flash-IsContained addr_str data_str s h)
  ]

  -- What each command makes of the flash writer.
  pub run_command_flash :
      (word rest : List ℕ) (s : Server hw)
      → let t = (run_command hw word rest s).0.flash in
        let l = (lock hw s.flash).0 in
        (t ≡ s.flash)
        ⊎ ((t ≡ unlock hw s.flash)
            ⊎ ((t ≡ l)
                ⊎ ((t ≡ record l { mem = hw.store_word boot_magic_addr 0 l.mem })
                    ⊎ ((t ≡ (run_write hw rest s).flash) ⊎ (t ≡ (run_read hw rest s).flash)))))
  unfolding run_command run_unlock run_lock clear_boot_magic
  run_command_flash word rest s = ground arith
