-- ===== src/Boot/Server/Buffers.antt =====
-- The tunnel of the bootloader: what a frame brings into the command buffer, and what a reply takes
-- out of the response buffer.
use spcd_actuator.Prelude.{
  ℕ, zero, suc, ◌+◌, ◌*◌, ◌/◌, ◌%◌, ◌≤◌, ◌<◌, min, ◌≡◌, ◌⊎◌, Bool, false, List, [], ◌∷◌, ◌++◌,
  Option, none, some, refl, ap, ◌∙◌, arith, length, take, length-take, take-append-drop,
  if◌then◌else◌, leb,
}
use spcd_actuator.Boot.Text.{write, buffer_capacity}
use spcd_actuator.Boot.Varuint.{write_varuint, read_varuint}
use spcd_actuator.Boot.Flash.{FlashHw}
use spcd_actuator.Boot.Server.{
  Server, CanFrame, limited, write_response, answer, read_counted, read_frame, client_to_server,
  server_to_client, tunnel_channel,
}

one_byte : (room value : ℕ) → 0 < room → value < 128 → write_varuint room value ≡ value ∷ []
unfolding write_varuint
one_byte (suc room) value h k = ground arith
one_byte zero value h k = absurd (omega arith)

-- What a client sends to the tunnel.
abbrev pub data_frame : ℕ → Bool → List ℕ → CanFrame
data_frame identifier brs bytes = record {
  identifier = identifier;
  bit_rate_switch = brs;
  bytes = client_to_server ∷ tunnel_channel ∷ length bytes ∷ bytes;
}

read_small : (v : ℕ) (bytes : List ℕ) → v < 128 → read_varuint (v ∷ bytes) ≡ (some v, bytes)
unfolding read_varuint
read_small v bytes h = ground arith

take_all : (xs : List ℕ) → take (length xs) xs ≡ xs
take_all [] = refl
take_all (x ∷ xs) = ap (λ t. x ∷ t) (take_all xs)

module _ (hw : FlashHw) where
  -- A reply carries the first bytes of the response buffer, at most 61 of them and at most as many as
  -- the poll asks for, behind the three header bytes; those bytes leave the buffer, the others stay
  -- in order, and the frame fits the 64 bytes of CAN-FD.
  pub write_response_lem :
      (host_id : ℕ) (max_bytes : Option ℕ) (brs : Bool) (s : Server hw)
      → let n = min 61 (limited max_bytes (length s.response)) in
        let (s', sent) = write_response hw host_id max_bytes brs s in
        (sent.payload ≡ server_to_client ∷ tunnel_channel ∷ n ∷ take n s.response)
        × (take n s.response ++ s'.response ≡ s.response)
        × (length sent.payload ≤ 64)
        × (sent.dest ≡ s.id * 256 + host_id)
  unfolding write_response write
  write_response_lem host_id max_bytes brs s =
      rw
        (
          one_byte 256 server_to_client (omega arith) (omega arith),
          one_byte 255 tunnel_channel (omega arith) (omega arith),
          one_byte 254 n (omega arith) (omega arith),
        )
        (
          ground (arith, length-take n s.response),
          take-append-drop n s.response,
          ground (arith, length-take n s.response),
          refl,
        )
    where
      n : ℕ
      n = min 61 (limited max_bytes (length s.response))

  read_frame_counted :
      (identifier : ℕ) (brs : Bool) (bytes : List ℕ) (s : Server hw)
      → (identifier % 256 ≡ s.id) ⊎ (identifier % 256 ≡ 0x7F)
      → length bytes ≤ 61
      → read_frame hw (data_frame identifier brs bytes) s
        ≡ read_counted hw (data_frame identifier brs bytes) false (length bytes) bytes s
  unfolding read_frame
  read_frame_counted identifier brs bytes s d k = ground (
    arith,
    read_small client_to_server (tunnel_channel ∷ length bytes ∷ bytes) (omega arith),
    read_small tunnel_channel (length bytes ∷ bytes) (omega arith),
    read_small (length bytes) bytes (omega arith),
  )

  read_counted_data :
      (frame : CanFrame) (bytes : List ℕ) (s : Server hw)
      → frame.identifier / 256 % 256 < 128
      → 0 < length bytes
      → read_counted hw frame false (length bytes) bytes s ≡ (
        record s {
          command =
              if leb (length s.command + length bytes) buffer_capacity
              then s.command ++ bytes
              else [];
        },
        none,
      )
  unfolding read_counted answer
  read_counted_data frame bytes s q h = ground (arith, take_all bytes)

  -- A frame for this device, or for all, that carries `bytes` for the tunnel: they are added to the
  -- command buffer where they fit; where they do not fit, the buffer is emptied and nothing is sent.
  pub read_frame_data :
      (identifier : ℕ) (brs : Bool) (bytes : List ℕ) (s : Server hw)
      → (identifier % 256 ≡ s.id) ⊎ (identifier % 256 ≡ 0x7F)
      → identifier / 256 % 256 < 128
      → 0 < length bytes
      → length bytes ≤ 61
      → read_frame hw (data_frame identifier brs bytes) s ≡ (
        record s {
          command =
              if leb (length s.command + length bytes) buffer_capacity
              then s.command ++ bytes
              else [];
        },
        none,
      )
  read_frame_data identifier brs bytes s d q h k =
      read_frame_counted identifier brs bytes s d k
      ∙ read_counted_data (data_frame identifier brs bytes) bytes s q h
