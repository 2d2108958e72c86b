-- ===== src/Encoder/Sensor.antt =====
-- fw/device/inc/device/ma600.h: the MA600 encoder on its SPI bus, for a driver that has both the bus
-- and the delay. The bus's calls and the waits are a history, newest first.
use spcd_actuator.Prelude.{
  ℕ, ◌*◌, Bool, true, false, ◌&&◌, not, if◌then◌else◌, leb, ◌==◌, u16, List, ◌∷◌, bit_and, bit_or,
}

pub data BusCall : Type 0 where
  transfer begin : ℕ → BusCall
  finish : BusCall
  wait_us : ℕ → BusCall

-- `Ma600::Config` and the other members
pub record Ma600 : Type 0 where
  pub filter_us : ℕ
  pub bct : ℕ
  pub enable_trim : ℕ
  pub raw : ℕ
  pub ok : Bool
  pub error : Bool
  pub calls : List BusCall

abbrev call : BusCall → Ma600 → Ma600
call c m = record m { calls = c ∷ m.calls }

-- `Sample`, `StartSample` and `FinishSample`, with the word that the bus answers
unfoldable pub sample : ℕ → Ma600 → Ma600
sample word m = record (call (transfer 0) m) { raw = u16 word }

unfoldable pub start_sample : Ma600 → Ma600
start_sample m = call (begin 0) m

unfoldable pub finish_sample : ℕ → Ma600 → Ma600
finish_sample word m = record (call finish m) { raw = u16 word }

-- The code of a filter's window in `WriteConfig`.
unfoldable pub desired_filter : ℕ → ℕ
desired_filter filter_us =
    if filter_us == 0
    then 0
    else if leb filter_us 40
    then 5
    else if leb filter_us 80
    then 6
    else if leb filter_us 160
    then 7
    else if leb filter_us 320
    then 8
    else if leb filter_us 640
    then 9
    else if leb filter_us 1280
    then 10
    else if leb filter_us 2560
    then 11
    else 12

-- `SetRegister`, which returns false; the register is above the byte.
unfoldable pub set_register : ℕ → ℕ → Ma600 → Ma600
set_register reg desired m = call (wait_us 2) (
    call (transfer 0) (
      call (wait_us 2) (
        call (transfer (u16 (bit_or (reg * 256) desired)))
          (call (wait_us 2) (call (transfer 59988) m)))))

-- `WriteConfig`, which returns false
unfoldable pub write_config : Ma600 → Ma600
write_config m =
    set_register 3 (bit_and m.enable_trim 3)
      (set_register 2 m.bct (set_register 13 (desired_filter m.filter_us) m))

-- `Init` and `SetFilterUs`
unfoldable pub init : ℕ → Ma600 → Ma600 × Bool
init word m = (sample word (record (write_config m) { error = false; ok = true }), true)

unfoldable pub set_filter_us : ℕ → Ma600 → Ma600 × Bool
set_filter_us filter_us m =
    (record (write_config (record m { filter_us = filter_us })) { error = false; ok = true }, true)

-- `ok`
unfoldable pub is_ok : Ma600 → Bool
is_ok m = m.ok && not m.error
