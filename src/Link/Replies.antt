-- ===== src/Link/Replies.antt =====
-- The replies to command frames, and what one poll of the adapter can do.
use spcd_actuator.Prelude.{
  ℕ, zero, suc, ◌+◌, ◌*◌, ◌≤◌, ◌≡◌, Bool, true, false, ◌||◌, List, [], ◌∷◌, arith, if◌then◌else◌,
  drop, refl,
}
use spcd_actuator.Floats.{Floats}
use spcd_actuator.Link.Protocol.{
  magic, version, type_ack, header_size, uses_ctrl_reply, read_u8, tel_id,
}
use spcd_actuator.Link.Commands.{Call, Services, reply_control, send_raw}
use spcd_actuator.Link.Adapter.{Adapter, Board, call}
use spcd_actuator.Link.Dispatch.{
  RxFrame, run_command, handle_command, handle_frame, is_command, send_ack, send_bytes_raw,
  is_boot_request, poll_frames, poll,
}
use spcd_actuator.Link.Control.{count_starts, count_replies, allowance, run_command-Keeps}

-- The reply to a command: an answer of the telemetry publisher to stop, servo and query, and an
-- acknowledgement for all others, with the command's sequence number, its number and the status.
abbrev pub reply_of : {fl : Floats} → Board → ℕ → ℕ → ℕ → Bool → Call fl
reply_of b cmd seq status fault =
    if uses_ctrl_reply cmd
    then reply_control cmd seq status fault
    else send_raw (tel_id b.node_id) (magic ∷ version ∷ type_ack ∷ seq ∷ cmd ∷ status ∷ 0 ∷ 0 ∷ [])

abbrev pub of_flag : Bool → ℕ
of_flag true = 1
of_flag false = 0

module _ (fl : Floats) (b : Board) where
  -- What the handler of a frame's command leaves.
  abbrev pub ran : RxFrame → Services fl → Adapter fl → Adapter fl × ℕ
  ran f r a =
      run_command fl b (read_u8 f.bytes header_size) (read_u8 f.bytes 3)
        (drop (header_size + 1) f.bytes) r a

  send_ack-calls :
      (cmd seq status : ℕ) (a : Adapter fl)
      → send_ack b cmd seq status a
        ≡ call
            (send_raw
              (tel_id b.node_id)
              (magic ∷ version ∷ type_ack ∷ seq ∷ cmd ∷ status ∷ 0 ∷ 0 ∷ []))
            a
  unfolding send_ack send_bytes_raw
  send_ack-calls cmd seq status a = ground arith

  -- A command frame's last effect is its one reply, which names the command, its sequence number and
  -- the status of its handler; the handler itself gives no reply, and the frame counts as received.
  pub handle_frame_reply :
      (f : RxFrame) (r : Services fl) (a : Adapter fl)
      → is_command b f ≡ true
      → ((handle_frame fl b f r a).0.calls
          ≡ reply_of b
              (read_u8 f.bytes header_size)
              (read_u8 f.bytes 3)
              (ran f r a).1
              a.driver_fault
            ∷ (ran f r a).0.calls)
        × (count_replies (ran f r a).0.calls ≡ count_replies a.calls)
        × ((handle_frame fl b f r a).1 ≡ true)
  unfolding handle_frame handle_command
  handle_frame_reply f r a h = ground (
    arith,
    run_command-Keeps fl b (read_u8 f.bytes header_size) (read_u8 f.bytes 3)
        (drop (header_size + 1) f.bytes) r a,
    send_ack-calls (read_u8 f.bytes header_size) (read_u8 f.bytes 3) (ran f r a).1 (ran f r a).0,
  )

  -- Handling a frame keeps the flags, gives one reply if it is accepted and none if it is not, and
  -- makes no more starts than allowed.
  abbrev Frame : RxFrame → Services fl → Adapter fl → Type 0
  Frame f r a =
      ((handle_frame fl b f r a).0.driver_fault ≡ a.driver_fault)
      × ((handle_frame fl b f r a).0.control_allowed ≡ a.control_allowed)
      × (count_replies (handle_frame fl b f r a).0.calls
          ≡ count_replies a.calls + of_flag (handle_frame fl b f r a).1)
      × (count_starts (handle_frame fl b f r a).0.calls
          ≤ count_starts a.calls + allowance a.control_allowed)

  handle_frame-Frame : (f : RxFrame) (r : Services fl) (a : Adapter fl) → Frame f r a
  unfolding handle_frame handle_command
  handle_frame-Frame f r a = ground (
    arith,
    run_command-Keeps fl b (read_u8 f.bytes header_size) (read_u8 f.bytes 3)
        (drop (header_size + 1) f.bytes) r a,
    send_ack-calls (read_u8 f.bytes header_size) (read_u8 f.bytes 3) (ran f r a).1 (ran f r a).0,
  )

  poll_frames_starts :
      (n : ℕ) (fs : List (RxFrame × Services fl)) (received : Bool) (a : Adapter fl)
      → count_starts (poll_frames fl b n fs received a).0.calls
        ≤ count_starts a.calls + n * allowance a.control_allowed
  unfolding poll_frames
  poll_frames_starts zero fs received a = ground arith
  poll_frames_starts (suc n) [] received a = ground arith
  poll_frames_starts (suc n) ((f, r) ∷ fs) received a = ground (
    arith,
    handle_frame-Frame f r a,
    poll_frames_starts n fs ((handle_frame fl b f r a).1 || received) (handle_frame fl b f r a).0,
  )

  -- Whatever frames come in, one poll makes at most eight counted calls, and none where the
  -- application forbids control. Counted are the starts of the servo, of the current mode, of the MIT
  -- mode and of a calibration, and the clearing, the chunks and the commit of the encoder's
  -- compensation. The calls of the configuration service and of the calibration store are not
  -- counted: a settings command loads the persistent calibration again also where control is
  -- forbidden.
  pub poll_starts :
      (control_allowed driver_fault bus_off : Bool) (fs : List (RxFrame × Services fl))
      (a : Adapter fl)
      → count_starts (poll fl b control_allowed driver_fault bus_off fs a).0.calls
        ≤ count_starts a.calls + 8 * allowance control_allowed
  unfolding poll
  poll_starts c d bus_off fs a =
      ground
        (arith, poll_frames_starts 8 fs false (record a { control_allowed = c; driver_fault = d }))

  -- Is one of the first frames a bootloader request?
  abbrev pub any_boot : ℕ → List (RxFrame × Services fl) → Bool
  any_boot zero fs = false
  any_boot (suc n) [] = false
  any_boot (suc n) (f ∷ fs) = is_boot_request f.0 || any_boot n fs

  poll_frames_boot :
      (n : ℕ) (fs : List (RxFrame × Services fl)) (received : Bool) (a : Adapter fl)
      → (poll_frames fl b n fs received a).1.bootloader_requested ≡ any_boot n fs
  unfolding poll_frames
  poll_frames_boot zero fs received a = refl
  poll_frames_boot (suc n) [] received a = refl
  poll_frames_boot (suc n) ((f, r) ∷ fs) received a = ground (
    arith,
    poll_frames_boot n fs ((handle_frame fl b f r a).1 || received) (handle_frame fl b f r a).0,
  )

  -- While the bus is on, a poll reports a bootloader request exactly when one of the next eight
  -- frames is the boot frame, whether control is allowed or not.
  pub poll_boot :
      (control_allowed driver_fault : Bool) (fs : List (RxFrame × Services fl)) (a : Adapter fl)
      → (poll fl b control_allowed driver_fault false fs a).1.bootloader_requested ≡ any_boot 8 fs
  unfolding poll
  poll_boot c d fs a = poll_frames_boot 8 fs false _
