-- ===== src/Boot/Server.antt =====
-- fw/bootloader/src/BL_CommandServer.cc: the command server of the bootloader.
pub mod Writes
pub mod Memory
pub mod Buffers
mod Tests
use spcd_actuator.Prelude.{
  ℕ, zero, suc, ◌+◌, ◌-◌, ◌*◌, ◌/◌, ◌%◌, ◌^◌, ◌≤◌, ◌<◌, min, ◌≡◌, Bool, true, false, ◌&&◌, ◌||◌,
  not, Option, none, some, List, [], ◌∷◌, ◌++◌, if◌then◌else◌, ltb, leb, ◌==◌, length, take, drop,
  u8, u32,
}
use spcd_actuator.Boot.Text.{chars, buffer_capacity, write, next_token, find_line_end, text_eq}
use spcd_actuator.Boot.Varuint.{write_varuint, read_varuint}
use spcd_actuator.Boot.Hex.{uint8_hex, uint32_hex, hex_to_i, addr_in_range}
use spcd_actuator.Boot.Flash.{
  FlashHw, Writer, flash_start, app_start, flash_end, unlock, lock, program_byte,
}

-- `BL_CanFrame`, with the bytes that it holds.
pub record CanFrame : Type 0 where
  pub identifier : ℕ
  pub bit_rate_switch : Bool
  pub bytes : List ℕ

-- What `driver_.Send` is asked to send; its result is ignored.
pub record Sent : Type 0 where
  pub dest : ℕ
  pub payload : List ℕ
  pub brs : Bool

-- `BL_FlashSessionState` is `session_unlocked`.
pub record Server (hw : FlashHw) : Type 0 where
  pub id : ℕ
  pub flash : Writer hw
  pub session_unlocked : Bool
  pub command : List ℕ
  pub response : List ℕ

-- `kBootMagicAddr`: the word that asks for the bootloader.
abbrev pub boot_magic_addr : ℕ
boot_magic_addr = 0x20000000

abbrev pub tunnel_channel : ℕ
tunnel_channel = 1

abbrev pub client_to_server : ℕ
client_to_server = 0x40

abbrev pub server_to_client : ℕ
server_to_client = 0x41

abbrev pub client_poll_server : ℕ
client_poll_server = 0x42

-- `max_bytes >= 0 ? std::min(max_bytes, response_.pos) : response_.pos`
abbrev pub limited : Option ℕ → ℕ → ℕ
limited none available = available
limited (some m) available = min m available

module _ (hw : FlashHw) where
  abbrev pub say : List ℕ → Server hw → Server hw
  say text s = record s { response = write text s.response }

  -- `WriteByte`: whether the byte was taken.
  pub write_byte : ℕ → ℕ → Server hw → Server hw × Bool
  write_byte address byte s =
      let (w, err) = program_byte hw address byte s.flash in
      let s' = record s { flash = w } in
      if not s.session_unlocked || s.flash.locked
      then (say (chars "ERR flash is locked\r\n") s, false)
      else if ltb address flash_start || leb flash_end address
      then (say (chars "ERR address not in flash\r\n") s, false)
      else if ltb address app_start
      then (say (chars "ERR address not writable (bootloader region)\r\n") s, false)
      else if err == 0
      then (s', true)
      else (say (chars "\r\n") (say (uint32_hex err) (say (chars "ERR program error ") s')), false)

  -- The loop of `WriteFlash` over the pairs of digits that are left.
  pub write_bytes : ℕ → List ℕ → Server hw → Server hw
  write_bytes address (a ∷ b ∷ digits) s = elim (hex_to_i (a ∷ b ∷ [])) [
    | none ↦ say (chars "ERR malformed hex\r\n") s
    | some byte ↦
        (let (s', taken) = write_byte address (u8 byte) s in
          let rest = write_bytes (u32 (address + 1)) digits s' in if taken then rest else s')
  ]
  write_bytes address _ s = say (chars "OK\r\n") s

  -- `WriteFlash`
  pub write_flash : List ℕ → List ℕ → Server hw → Server hw
  write_flash addr_str data_str s =
      if length data_str % 2 == 0
      then elim (hex_to_i addr_str) [
        | none ↦ say (chars "ERR malformed hex\r\n") s
        | some addr ↦ write_bytes addr data_str s
      ]
      else say (chars "odd data size\r\n") s

  -- The loop of `ReadFlash`.
  pub say_bytes : ℕ → ℕ → Server hw → Server hw
  say_bytes zero address s = s
  say_bytes (suc n) address s =
      say_bytes n (address + 1) (say (uint8_hex (hw.read s.flash.mem address)) s)

  pub is_readable : ℕ → ℕ → Bool
  is_readable addr size =
      addr_in_range addr size 0x08000000 flash_end
      || (addr_in_range addr size 0x20000000 0x20020000
          || addr_in_range addr size 0x10000000 0x10008000)

  -- `ReadFlash` once the numbers are read.
  pub read_range : ℕ → ℕ → Server hw → Server hw
  read_range addr size s =
      if ltb 32 size
      then say (chars "size too big\r\n") s
      else if is_readable addr size
      then say (chars "\r\n") (say_bytes size addr (say (chars " ") (say (uint32_hex addr) s)))
      else say (chars "ERR address not readable\r\n") s

  -- `ReadFlash`
  pub read_flash : List ℕ → List ℕ → Server hw → Server hw
  read_flash addr_str size_str s = elim (hex_to_i addr_str) [
    | none ↦ say (chars "ERR malformed hex\r\n") s
    | some addr ↦ elim (hex_to_i size_str) [
      | none ↦ say (chars "ERR malformed hex\r\n") s
      | some size ↦ read_range addr size s
    ]
  ]

  -- `w addr data` and `r addr size`, at the characters behind the command word.
  pub run_write : List ℕ → Server hw → Server hw
  run_write rest s =
      let (addr_str, rest') = next_token rest in
      let (data_str, _) = next_token rest' in
      if length addr_str == 0 || length data_str == 0
      then say (chars "ERR malformed write\r\n") s
      else write_flash addr_str data_str s

  pub run_read : List ℕ → Server hw → Server hw
  run_read rest s =
      let (addr_str, rest') = next_token rest in
      let (size_str, _) = next_token rest' in
      if length addr_str == 0 || length size_str == 0
      then say (chars "ERR malformed read\r\n") s
      else read_flash addr_str size_str s

  pub run_unlock : Server hw → Server hw
  run_unlock s =
      say (chars "OK\r\n") (record s { flash = unlock hw s.flash; session_unlocked = true })

  -- The lock that `lock` and `reset` make; whether it worked.
  pub run_lock : Server hw → Server hw × Bool
  run_lock s =
      let (w, err) = lock hw s.flash in
      if err == 0
      then (record s { flash = w; session_unlocked = false }, true)
      else (say (chars "ERR error locking\r\n") (record s { flash = w }), false)

  -- `*kBootMagicAddr = 0`
  pub clear_boot_magic : Server hw → Server hw
  clear_boot_magic s = record s {
    flash = record s.flash { mem = hw.store_word boot_magic_addr 0 s.flash.mem };
  }

  -- The commands, by their word. The flag says that the device resets.
  pub run_command : List ℕ → List ℕ → Server hw → Server hw × Bool
  run_command word rest s =
      let (s', done) = run_lock s in
      if length word == 0
      then (s, false)
      else if text_eq word (chars "echo")
      then (say rest s, false)
      else if text_eq word (chars "unlock")
      then (run_unlock s, false)
      else if text_eq word (chars "lock")
      then (if done then say (chars "OK\r\n") s' else s', false)
      else if text_eq word (chars "w")
      then (run_write rest s, false)
      else if text_eq word (chars "r")
      then (run_read rest s, false)
      else if text_eq word (chars "reset")
      then (if done then clear_boot_magic s' else s', done)
      else (say (chars "ERR unknown command\r\n") s, false)

  -- `RunLine`. The tokens are taken from the whole buffer, not only from its first line.
  pub run_line : Server hw → Server hw × Bool
  run_line s = elim (find_line_end s.command) [
    | none ↦ (s, false)
    | some line_end ↦
        (let (word, rest) = next_token s.command in
          let (s', resets) = run_command word rest s in
          if resets
          then (s', true)
          else (record s' { command = drop (line_end + 1) s'.command }, false))
  ]

  -- `WriteResponse`: `max_bytes` is `none` for -1.
  pub write_response : ℕ → Option ℕ → Bool → Server hw → Server hw × Sent
  write_response host_id max_bytes brs s =
      let n = min 61 (limited max_bytes (length s.response)) in
      let header =
        write_varuint buffer_capacity server_to_client
        ++ (write_varuint (buffer_capacity - 1) tunnel_channel
            ++ write_varuint (buffer_capacity - 2) n) in
      (
        record s { response = drop n s.response },
        record {
          dest = s.id * 256 + host_id;
          payload = write (take n s.response) header;
          brs = brs;
        },
      )

  -- `ReadFrame` after the reply is decided: a query is answered, and nothing else is sent.
  pub answer : CanFrame → Option ℕ → Server hw → Server hw × Option Sent
  answer frame max_bytes s =
      let source_id = frame.identifier / 256 % 256 in
      let (s', sent) = write_response (source_id % 128) max_bytes frame.bit_rate_switch s in
      if leb 128 source_id then (s', some sent) else (s, none)

  -- `ReadFrame` from the count of bytes on. `static_cast<int>` of a count of 2 ^ 31 or more is
  -- negative, which stands for "no limit".
  pub read_counted : CanFrame → Bool → ℕ → List ℕ → Server hw → Server hw × Option Sent
  read_counted frame poll_only count rest s =
      let limit = if poll_only && ltb count 2147483648 then some count else none in
      if not poll_only && ltb 0 count
      then (if ltb (length rest) count
          then (s, none)
          else if ltb buffer_capacity (length s.command + count)
          then (record s { command = [] }, none)
          else answer frame limit (record s { command = s.command ++ take count rest }))
      else answer frame limit s

  -- `ReadFrame`, at the frame that `driver_.Poll` delivers.
  pub read_frame : CanFrame → Server hw → Server hw × Option Sent
  read_frame frame s =
      let dest_id = frame.identifier % 256 in
      let (subframe, bytes1) = read_varuint frame.bytes in
      let (channel, bytes2) = read_varuint bytes1 in
      let (count, bytes3) = read_varuint bytes2 in
      if not (dest_id == s.id) && not (dest_id == 0x7F) then (s, none) else elim subframe [
        | none ↦ (s, none)
        | some sub ↦
            (if not (sub == client_to_server) && not (sub == client_poll_server)
              then (s, none)
              else elim channel [
                | none ↦ (s, none)
                | some ch ↦
                    (if ch == tunnel_channel
                      then elim count [
                        | none ↦ (s, none)
                        | some n ↦ read_counted frame (sub == client_poll_server) n bytes3 s
                      ]
                      else (s, none))
              ])
      ]

  -- `Step`: the server, what it sends, and whether the device resets.
  pub step : CanFrame → Server hw → Server hw × Option Sent × Bool
  step frame s =
      let (s', sent) = read_frame frame s in let (s'', resets) = run_line s' in (s'', sent, resets)

  -- `while (true) server.Step()`, at the frames that arrive, until the device resets.
  pub steps : List CanFrame → Server hw → Server hw
  steps [] s = s
  steps (frame ∷ frames) s =
      let (s', sent, resets) = step frame s in
      let later = steps frames s' in if resets then s' else later
