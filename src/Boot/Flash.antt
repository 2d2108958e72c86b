-- ===== src/Boot/Flash.antt =====
-- fw/bootloader/src/BL_FlashWriter.cc and its header: programming the flash in doublewords.
-- The 64-bit `shadow_` is its eight bytes, lowest first, and `shadow_bits_` tells for each of them
-- whether its mask is set. The flash controller is not code of the repository: it is a parameter.
pub mod Bounds
use spcd_actuator.Prelude.{
  ℕ, zero, suc, ◌+◌, ◌-◌, ◌*◌, ◌/◌, ◌%◌, ◌≤◌, ◌<◌, ◌≡◌, ◌⊎◌, Bool, true, false, ◌&&◌, ◌||◌, not,
  List, [], ◌∷◌, if◌then◌else◌, ltb, leb, ◌==◌, set, get_or, replicate,
}

-- `kAppStart`, `kFlashEnd`, and the start of the flash.
abbrev pub flash_start : ℕ
flash_start = 0x08000000

abbrev pub app_start : ℕ
app_start = 0x08010000

abbrev pub flash_end : ℕ
flash_end = 0x08080000

-- What `Wait` sees of the status register: how often BSY is read as set, and the error bits then.
pub record Outcome : Type 0 where
  pub busy_polls : ℕ
  pub errors : ℕ

-- The flash controller and the memory behind it: a byte as it is read, a page erase by bank and
-- sector, the programming of the doubleword at an address, and the store of a word in the RAM.
pub record FlashHw : Type 1 where
  pub Mem : Type 0
  pub read : Mem → ℕ → ℕ
  pub erase : ℕ → ℕ → Mem → Mem × Outcome
  pub program : ℕ → List ℕ → Mem → Mem × Outcome
  pub store_word : ℕ → ℕ → Mem → Mem

-- `Wait`: its timeout of 8000000 rounds, or the error bits; 0 is success.
pub wait : Outcome → ℕ
wait o = if leb 8000000 o.busy_polls then 0x80000001 else o.errors

pub record Writer (hw : FlashHw) : Type 0 where
  pub locked : Bool
  pub shadow_start : ℕ
  pub shadow : List ℕ
  pub shadow_bits : List Bool
  pub sectors_erased : List Bool
  pub mem : hw.Mem

abbrev pub any_set : List Bool → Bool
any_set [] = false
any_set (b ∷ bs) = b || any_set bs

abbrev pub all_set : List Bool → Bool
all_set [] = true
all_set (b ∷ bs) = b && all_set bs

abbrev pub bytes_eq : List ℕ → List ℕ → Bool
bytes_eq [] [] = true
bytes_eq (a ∷ as') (b ∷ bs) = a == b && bytes_eq as' bs
bytes_eq _ _ = false

-- `bank` of `MaybeEraseSector`
abbrev pub bank_of : ℕ → ℕ
bank_of address = if ltb address 0x08040000 then 1 else 2

abbrev pub bank_start : ℕ → ℕ
bank_start bank = if bank == 1 then 0x08000000 else 0x08040000

abbrev pub sector_of : ℕ → ℕ
sector_of address = (address - bank_start (bank_of address)) / 2048

abbrev pub sector_index : ℕ → ℕ
sector_index address = (bank_of address - 1) * 128 + sector_of address

module _ (hw : FlashHw) where
  -- The shadow is empty: its initial values, and those after a flush.
  abbrev pub clear_shadow : Writer hw → Writer hw
  clear_shadow w = record w {
    shadow_start = 0;
    shadow = replicate 8 255;
    shadow_bits = replicate 8 false;
  }

  -- `Unlock`
  pub unlock : Writer hw → Writer hw
  unlock w = record (clear_shadow w) { sectors_erased = replicate 256 false; locked = false }

  -- `EraseSector`: the new memory and the result of `Wait`.
  pub erase_sector : ℕ → ℕ → Writer hw → Writer hw × ℕ
  erase_sector bank sector w =
      let (m, o) = hw.erase bank sector w.mem in (record w { mem = m }, wait o)

  -- `MaybeEraseSector`. No address of the flash gives an index out of range.
  pub maybe_erase_sector : ℕ → Writer hw → Writer hw × ℕ
  maybe_erase_sector address w =
      let (w', err) = erase_sector (bank_of address) (sector_of address) w in
      if get_or w.sectors_erased (sector_index address) true
      then (w, 0)
      else if err == 0
      then (record w' { sectors_erased = set w'.sectors_erased (sector_index address) true }, 0)
      else (w', err)

  -- The two 32-bit reads at the doubleword.
  abbrev pub read_word : hw.Mem → ℕ → List ℕ
  read_word m a =
      hw.read m a
      ∷ hw.read m (a + 1)
      ∷ hw.read m (a + 2)
      ∷ hw.read m (a + 3)
      ∷ hw.read m (a + 4)
      ∷ hw.read m (a + 5)
      ∷ hw.read m (a + 6)
      ∷ hw.read m (a + 7)
      ∷ []

  -- The part of `FlushWord` after the sector is known to be erased.
  pub store_shadow : Writer hw → Writer hw × ℕ
  store_shadow w =
      let (m, o) = hw.program w.shadow_start w.shadow w.mem in
      let programmed = record w { mem = m } in
      if bytes_eq (read_word w.mem w.shadow_start) w.shadow
      then (clear_shadow w, 0)
      else if wait o == 0
      then (clear_shadow programmed, 0)
      else (programmed, wait o)

  -- `FlushWord`
  pub flush_word : Writer hw → Writer hw × ℕ
  flush_word w =
      let (w', err) = maybe_erase_sector w.shadow_start w in
      if err == 0 then store_shadow w' else (w', err)

  -- `Lock`: 0 is success.
  pub lock : Writer hw → Writer hw × ℕ
  lock w =
      let (w', err) = flush_word w in
      if w.locked
      then (w, 0)
      else if any_set w.shadow_bits
      then (if err == 0 then (record w' { locked = true }, 0) else (w', err))
      else (record w { locked = true }, 0)

  -- The part of `ProgramByte` after a shadow of another doubleword is flushed.
  pub store_byte : ℕ → ℕ → Writer hw → Writer hw × ℕ
  store_byte address value w =
      let offset = address % 8 in
      let w' = record w {
        shadow_start = address - offset;
        shadow = set w.shadow offset value;
        shadow_bits = set w.shadow_bits offset true;
      } in
      if all_set w'.shadow_bits then flush_word w' else (w', 0)

  -- `ProgramByte`
  pub program_byte : ℕ → ℕ → Writer hw → Writer hw × ℕ
  program_byte address value w =
      let (w', err) = flush_word w in
      if not (address - address % 8 == w.shadow_start) && not (w.shadow_start == 0)
      then (if err == 0 then store_byte address value w' else (w', err))
      else store_byte address value w
