-- ===== src/Store/Record.antt =====
-- fw/middleware/inc/middleware/persistence/runtime_config_store.h: `RuntimeConfigStore`, the runtime
-- configuration in its page of flash. The record is packed: its bytes in order. The flash driver of the
-- vendor's library is a parameter.
use spcd_actuator.Prelude.{
  ℕ, zero, suc, ◌+◌, ◌-◌, ◌/◌, ◌%◌, Bool, true, false, ◌&&◌, List, [], ◌∷◌, ◌++◌, Option, none,
  some, if◌then◌else◌, ◌==◌, take, drop, replicate, bit_xor, bit_and,
}
use spcd_actuator.Link.Protocol.{le32, read_word}
use spcd_actuator.Link.Commands.{RuntimeConfig}

-- `kMagic`, `kVersion` of the store
abbrev pub store_magic : ℕ
store_magic = 1480803911

abbrev pub store_version : ℕ
store_version = 1

-- `offsetof(Record, crc)`, `sizeof(Record)`, `kProgramSize`, `kSize`
abbrev pub crc_offset : ℕ
crc_offset = 128

abbrev pub record_size : ℕ
record_size = 132

abbrev pub program_size : ℕ
program_size = 136

-- One round of the inner loop of `CrcBytes`.
unfoldable pub crc_bit : ℕ → ℕ
crc_bit c =
    let mask = if c % 2 == 1 then 4294967295 else 0 in bit_xor (c / 2) (bit_and 3988292384 mask)

unfoldable pub crc_bits : ℕ → ℕ → ℕ
crc_bits zero c = c
crc_bits (suc n) c = crc_bits n (crc_bit c)

-- The outer loop of `CrcBytes`.
unfoldable pub crc_loop : List ℕ → ℕ → ℕ
crc_loop [] c = c
crc_loop (b ∷ bs) c = crc_loop bs (crc_bits 8 (bit_xor c b))

-- `CrcBytes`; `~c` of a 32-bit word.
unfoldable pub crc_bytes : List ℕ → ℕ
crc_bytes bytes = 4294967295 - crc_loop bytes 4294967295

-- The record before its CRC, and the whole record.
unfoldable pub record_body : RuntimeConfig → List ℕ
record_body c =
    le32 store_magic ++ (le32 store_version ++ (c.motor ++ (c.foc ++ (c.servo ++ c.encoder))))

unfoldable pub record_bytes : RuntimeConfig → List ℕ
record_bytes c = record_body c ++ le32 (crc_bytes (record_body c))

-- The groups of a record, by their offsets.
unfoldable pub groups_of : List ℕ → RuntimeConfig
groups_of r = record {
  motor = take 32 (drop 8 r);
  foc = take 24 (drop 40 r);
  servo = take 48 (drop 64 r);
  encoder = take 16 (drop 112 r);
}

-- The tests of `Load` on a record.
unfoldable pub is_intact : List ℕ → Bool
is_intact r =
    read_word r 0 == store_magic
    && (read_word r 4 == store_version && read_word r crc_offset == crc_bytes (take crc_offset r))

-- `Load`, from the bytes at `kBaseAddr`.
unfoldable pub load : List ℕ → Option RuntimeConfig
load page = let r = take record_size page in if is_intact r then some (groups_of r) else none

abbrev pub is_some : Option RuntimeConfig → Bool
is_some none = false
is_some (some c) = true

-- The flash driver: `HAL_FLASHEx_Erase` of the page (its result and the page error as one flag), and
-- `HAL_FLASH_Program` of a doubleword at an offset, given as its eight bytes.
pub record Driver : Type 0 where
  pub erase : List ℕ → List ℕ × Bool
  pub program : ℕ → List ℕ → List ℕ → List ℕ × Bool

-- The loop of `Save` over `n` doublewords of the buffer from an offset on.
unfoldable pub program_all : Driver → ℕ → ℕ → List ℕ → List ℕ → List ℕ × Bool
program_all d zero off buf page = (page, true)
program_all d (suc n) off buf page =
    let (page', ok) = d.program off (take 8 buf) page in
    let rest = program_all d n (off + 8) (drop 8 buf) page' in if ok then rest else (page', false)

-- `Save`: the page afterwards and the returned flag.
unfoldable pub save : Driver → RuntimeConfig → List ℕ → List ℕ × Bool
save d c page =
    let buf = record_bytes c ++ replicate (program_size - record_size) 0 in
    let (erased, erase_ok) = d.erase page in
    let (written, program_ok) = program_all d 17 0 buf erased in
    let verified = is_some (load written) in
    if erase_ok
    then (if program_ok then (written, verified) else (written, false))
    else (erased, false)
