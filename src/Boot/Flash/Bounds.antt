-- ===== src/Boot/Flash/Bounds.antt =====
-- The flash writer never touches memory outside the application's flash.
use spcd_actuator.Prelude.{
  ℕ, ◌+◌, ◌-◌, ◌*◌, ◌%◌, ◌≤◌, ◌<◌, ◌≡◌, ◌⊎◌, true, false, List, refl, arith, replicate, set, inl,
  inr,
}
use spcd_actuator.Boot.Flash.{
  FlashHw, Writer, app_start, flash_end, bank_of, bank_start, sector_of, sector_index, unlock,
  erase_sector, maybe_erase_sector, store_shadow, flush_word, lock, store_byte, program_byte,
}

-- What the reference manual says of the controller: an erase changes nothing outside its page, and
-- programming nothing outside its doubleword, whatever their outcomes.
pub record IsConfined (hw : FlashHw) : Type 0 where
  pub erase_confined :
      (bank sector a : ℕ) (m : hw.Mem)
      → (a < bank_start bank + sector * 2048) ⊎ (bank_start bank + sector * 2048 + 2048 ≤ a)
      → hw.read (hw.erase bank sector m).0 a ≡ hw.read m a
  pub program_confined :
      (address a : ℕ) (bytes : List ℕ) (m : hw.Mem)
      → (a < address) ⊎ (address + 8 ≤ a)
      → hw.read (hw.program address bytes m).0 a ≡ hw.read m a

-- A doubleword of the application's flash.
abbrev pub InApp : ℕ → Type 0
InApp a = (app_start ≤ a) × (a + 8 ≤ flash_end) × (a % 8 ≡ 0)

-- An address outside the application's flash: the vectors, the bootloader, or beyond the end.
abbrev pub IsOutside : ℕ → Type 0
IsOutside a = (a < app_start) ⊎ (flash_end ≤ a)

module _ (hw : FlashHw) where
  -- The shadow holds nothing, or bytes of a doubleword of the application's flash.
  abbrev pub HasGoodShadow : Writer hw → Type 0
  HasGoodShadow w =
      ((w.shadow_start ≡ 0) × (w.shadow_bits ≡ replicate 8 false)) ⊎ InApp w.shadow_start

  -- An operation went from `w` to `w'` with the shadow good, and memory untouched outside.
  pub record IsContained (w w' : Writer hw) : Type 0 where
    pub shadow_good : HasGoodShadow w'
    pub same_outside : (a : ℕ) → IsOutside a → hw.read w'.mem a ≡ hw.read w.mem a

module _ (hw : FlashHw) (c : IsConfined hw) where
  -- The page that `MaybeEraseSector` erases lies in the application's flash.
  page_inside :
      (address a : ℕ)
      → InApp address
      → IsOutside a
      → (a < bank_start (bank_of address) + sector_of address * 2048)
        ⊎ (bank_start (bank_of address) + sector_of address * 2048 + 2048 ≤ a)
  page_inside address a h o = ground arith

  -- `sectors_erased_` has 256 entries.
  pub sector_index-lt : (address : ℕ) → InApp address → sector_index address < 256
  sector_index-lt address h = ground arith

  maybe_erase_sector-same :
      (w : Writer hw) (a : ℕ)
      → InApp w.shadow_start
      → IsOutside a
      → let w' = (maybe_erase_sector hw w.shadow_start w).0 in
        (hw.read w'.mem a ≡ hw.read w.mem a)
        × (w'.shadow_start ≡ w.shadow_start)
        × (w'.shadow_bits ≡ w.shadow_bits)
  unfolding maybe_erase_sector erase_sector
  maybe_erase_sector-same w a h o = ground (
    arith,
    c.erase_confined (bank_of w.shadow_start) (sector_of w.shadow_start) a w.mem
        (page_inside w.shadow_start a h o),
  )

  store_shadow-same :
      (w : Writer hw) (a : ℕ)
      → InApp w.shadow_start
      → IsOutside a
      → hw.read (store_shadow hw w).0.mem a ≡ hw.read w.mem a
  unfolding store_shadow
  store_shadow-same w a h o = ground (arith, c.program_confined w.shadow_start a w.shadow w.mem)

  store_shadow-good :
      (w : Writer hw) → InApp w.shadow_start → HasGoodShadow hw (store_shadow hw w).0
  unfolding store_shadow
  store_shadow-good w h = ground arith

  maybe_erase_sector-shadow :
      (w : Writer hw)
      → let w' = (maybe_erase_sector hw w.shadow_start w).0 in
        (w'.shadow_start ≡ w.shadow_start) × (w'.shadow_bits ≡ w.shadow_bits)
  unfolding maybe_erase_sector erase_sector
  maybe_erase_sector-shadow w = ground arith

  flush_word-same :
      (w : Writer hw) (a : ℕ)
      → InApp w.shadow_start
      → IsOutside a
      → hw.read (flush_word hw w).0.mem a ≡ hw.read w.mem a
  unfolding flush_word
  flush_word-same w a h o = ground (
    arith,
    maybe_erase_sector-same w a h o,
    store_shadow-same (maybe_erase_sector hw w.shadow_start w).0 a,
  )

  flush_word-IsContained :
      (w : Writer hw) → InApp w.shadow_start → IsContained hw w (flush_word hw w).0
  unfolding flush_word
  flush_word-IsContained w h = record {
    shadow_good = ground (arith, maybe_erase_sector-shadow w, store_shadow-good w' (start h));
    same_outside = λ a o. flush_word-same w a h o;
  }
    where
      w' : Writer hw
      w' = (maybe_erase_sector hw w.shadow_start w).0

      start : InApp w.shadow_start → InApp w'.shadow_start
      start k = omega (arith, maybe_erase_sector-shadow w)

  pub lock-IsContained : (w : Writer hw) → HasGoodShadow hw w → IsContained hw w (lock hw w).0
  unfolding lock
  lock-IsContained w (inl (e, f)) = record {
    shadow_good = ground arith;
    same_outside = λ a o. ground arith;
  }
  lock-IsContained w (inr h) = record {
    shadow_good = ground (arith, (flush_word-IsContained w h).shadow_good);
    same_outside = λ a o. ground (arith, (flush_word-IsContained w h).same_outside a o);
  }

  store_byte-IsContained :
      (address value : ℕ) (w : Writer hw)
      → app_start ≤ address
      → address < flash_end
      → IsContained hw w (store_byte hw address value w).0
  unfolding store_byte
  store_byte-IsContained address value w h k = record {
    shadow_good = ground (arith, flush_word-IsContained w' inside);
    same_outside = λ a o. ground (arith, (flush_word-IsContained w' inside).same_outside a o);
  }
    where
      w' : Writer hw
      w' = record w {
        shadow_start = address - address % 8;
        shadow = set w.shadow (address % 8) value;
        shadow_bits = set w.shadow_bits (address % 8) true;
      }

      inside : InApp (address - address % 8)
      inside = omega arith

  -- Programming a byte of the application's flash changes no memory outside it: not the vectors, not
  -- the bootloader, not the memory past the end; and it leaves a shadow that later flushes keep
  -- there too. This holds whatever the controller's outcomes are.
  pub program_byte-IsContained :
      (address value : ℕ) (w : Writer hw)
      → HasGoodShadow hw w
      → app_start ≤ address
      → address < flash_end
      → IsContained hw w (program_byte hw address value w).0
  unfolding program_byte
  program_byte-IsContained address value w good h k = record {
    shadow_good = ground (
      arith,
      flushed,
      (store_byte-IsContained address value w h k).shadow_good,
      (store_byte-IsContained address value w' h k).shadow_good,
    );
    same_outside = λ a o. ground (
      arith,
      λ (p : InApp w.shadow_start). (flush_word-IsContained w p).same_outside a o,
      (store_byte-IsContained address value w h k).same_outside a o,
      (store_byte-IsContained address value w' h k).same_outside a o,
    );
  }
    where
      w' : Writer hw
      w' = (flush_word hw w).0

      flushed : InApp w.shadow_start → HasGoodShadow hw w'
      flushed p = (flush_word-IsContained w p).shadow_good

  -- `Unlock` empties the shadow and touches no memory.
  pub unlock-IsContained : (w : Writer hw) → IsContained hw w (unlock hw w)
  unfolding unlock
  unlock-IsContained w = record { shadow_good = inl (refl, refl); same_outside = λ a o. refl }
