-- ===== src/Link/Dispatch.antt =====
-- can_command_adapter.cc and binary_link.cc: from a received frame to the handler and the reply.
use spcd_actuator.Prelude.{
  ℕ, suc, zero, ◌+◌, List, [], ◌∷◌, if◌then◌else◌, ltb, leb, ◌==◌, not, length, take, drop, Bool,
  true, false, ◌&&◌, ◌||◌,
}
use spcd_actuator.Floats.{Floats}
use spcd_actuator.Boot.Text.{text_eq}
use spcd_actuator.Snapshot.{is_idle, arm, max_samples}
use spcd_actuator.Link.Protocol.{
  magic, version, type_ack, header_size, cmd_stop, cmd_info, cmd_snap, cmd_servo, cmd_cal,
  cmd_query, cmd_enc_comp, cmd_conf, uses_ctrl_reply, status_ok, status_bad_len, status_bad_cmd,
  status_not_run, status_fail, cmd_id, tel_id, read_u8, read_u16, read_word,
  is_command_frame_envelope, is_command_protocol_header,
}
use spcd_actuator.Link.Commands.{
  Services, recover_bus_off, motor_stop, reply_control, send_info, send_raw,
}
use spcd_actuator.Link.Adapter.{Adapter, Board, call}
use spcd_actuator.Link.Servo.{handle_servo}
use spcd_actuator.Link.Calibration.{handle_calibration, handle_encoder_compensation}
use spcd_actuator.Link.Configuration.{handle_configuration}

-- `static_cast<uint16_t>(x * scale + 0.5f)` of the float whose bytes stand at an offset.
unfoldable pub rounded : (fl : Floats) → List ℕ → ℕ → fl.F → ℕ
rounded fl motor off scale =
    fl.to_u16 (fl.add (fl.mul (fl.of_bits (read_word motor off)) scale) (fl.lit 5 1))

-- `HandleInfo`
unfoldable pub handle_info : (fl : Floats) → Board → ℕ → Adapter fl → Adapter fl × ℕ
handle_info fl b seq a =
    let motor = a.config.motor in
    (
      call
          (send_info (record {
            seq = seq;
            node_id = b.node_id;
            pwm_hz = b.nominal_pwm_hz;
            bus_mv = rounded fl motor 24 (fl.lit 1000 0);
            i_max_ma = rounded fl motor 16 (fl.lit 1000 0);
            pole_pairs = fl.to_u16 (fl.add (fl.of_bits (read_word motor 0)) (fl.lit 5 1));
            r_mohm = rounded fl motor 4 (fl.lit 1000 0);
            l_uh = rounded fl motor 8 (fl.lit 1000000 0);
            motor = take 11 b.motor_name;
          }))
          a,
      status_ok,
    )

-- The end of `HandleSnapshot`: `Arm` and its answer.
unfoldable pub arm_snapshot : {fl : Floats} → Board → ℕ → ℕ → ℕ → Adapter fl → Adapter fl × ℕ
arm_snapshot b seq n_samples decimate a =
    let (armed, started) = arm seq n_samples decimate b.nominal_pwm_hz a.snapshot in
    (record a { snapshot = armed }, if started then status_ok else status_fail)

-- `HandleSnapshot`; `sizeof(SnapRequest)` is 6.
unfoldable pub handle_snapshot :
    (fl : Floats) → Board → ℕ → List ℕ → Services fl → Adapter fl → Adapter fl × ℕ
handle_snapshot fl b seq p r a =
    if not r.isr_enabled
    then (a, status_not_run)
    else if not (is_idle a.snapshot.state)
    then (a, status_fail)
    else if leb 6 (length p)
    then arm_snapshot b seq (read_u16 p 0) (read_u8 p 2) a
    else if not (length p == 0)
    then (a, status_bad_len)
    else arm_snapshot b seq max_samples 1 a

-- The `switch` of `HandleCommand`.
unfoldable pub run_command :
    (fl : Floats) → Board → ℕ → ℕ → List ℕ → Services fl → Adapter fl → Adapter fl × ℕ
run_command fl b cmd seq p r a =
    if cmd == cmd_stop
    then (call motor_stop a, status_ok)
    else if cmd == cmd_query
    then (a, status_ok)
    else if cmd == cmd_servo
    then handle_servo fl p r a
    else if cmd == cmd_cal
    then handle_calibration fl p r a
    else if cmd == cmd_info
    then handle_info fl b seq a
    else if cmd == cmd_snap
    then handle_snapshot fl b seq p r a
    else if cmd == cmd_enc_comp
    then handle_encoder_compensation fl p r a
    else if cmd == cmd_conf
    then handle_configuration fl seq p r a
    else (a, status_bad_cmd)

-- `HandleCommand`
unfoldable pub handle_command :
    (fl : Floats) → Board → ℕ → ℕ → List ℕ → Services fl → Adapter fl → Adapter fl × ℕ
handle_command fl b cmd seq p r a =
    let (a', status) = run_command fl b cmd seq p r a in
    if uses_ctrl_reply cmd
    then (call (reply_control cmd seq status a'.driver_fault) a', status)
    else (a', status)

-- `BinaryLink::SendRaw`
unfoldable pub send_bytes_raw : {fl : Floats} → ℕ → List ℕ → Adapter fl → Adapter fl
send_bytes_raw can_id bytes a =
    if length bytes == 0
    then a
    else if ltb 64 (length bytes)
    then a
    else call (send_raw can_id bytes) a

-- `BinaryLink::SendAck`
unfoldable pub send_ack : {fl : Floats} → Board → ℕ → ℕ → ℕ → Adapter fl → Adapter fl
send_ack b cmd seq status a =
    send_bytes_raw (tel_id b.node_id) (magic ∷ version ∷ type_ack ∷ seq ∷ cmd ∷ status ∷ 0 ∷ 0 ∷ [])
      a

-- A frame with its header, as `FDCan::Poll` delivers it.
pub record RxFrame : Type 0 where
  pub standard_id : Bool
  pub data_frame : Bool
  pub identifier : ℕ
  pub bytes : List ℕ

-- The tests of `BinaryLink::HandleFrame`.
unfoldable pub is_command : Board → RxFrame → Bool
is_command b f =
    is_command_frame_envelope f.standard_id f.identifier f.data_frame (length f.bytes)
      (cmd_id b.node_id)
    && is_command_protocol_header f.bytes

-- `BinaryLink::HandleFrame`, its returned flag second.
unfoldable pub handle_frame :
    (fl : Floats) → Board → RxFrame → Services fl → Adapter fl → Adapter fl × Bool
handle_frame fl b f r a =
    let cmd = read_u8 f.bytes header_size in
    let seq = read_u8 f.bytes 3 in
    let (a', status) = handle_command fl b cmd seq (drop (header_size + 1) f.bytes) r a in
    if not (is_command b f)
    then (a, false)
    else if uses_ctrl_reply cmd
    then (a', true)
    else (send_ack b cmd seq status a', true)

-- `CommandPollResult`
pub record PollResult : Type 0 where
  pub received_frame : Bool
  pub bootloader_requested : Bool

-- The test for the frame `BOOT` at `kBootRequestId`.
unfoldable pub is_boot_request : RxFrame → Bool
is_boot_request f =
    f.standard_id
    && (f.identifier == 126 && (f.data_frame && text_eq f.bytes (66 ∷ 79 ∷ 79 ∷ 84 ∷ [])))

-- The `for` loop of `Poll`, over the frames that the driver delivers, each with the services' answers
-- while it is handled; `received` is the flag so far.
unfoldable pub poll_frames :
    (fl : Floats)
    → Board
    → ℕ
    → List (RxFrame × Services fl)
    → Bool
    → Adapter fl
    → Adapter fl × PollResult
poll_frames fl b zero fs received a =
    (a, record { received_frame = received; bootloader_requested = false })
poll_frames fl b (suc n) [] received a =
    (a, record { received_frame = received; bootloader_requested = false })
poll_frames fl b (suc n) ((f, r) ∷ fs) received a =
    let (a', accepted) = handle_frame fl b f r a in
    let rest = poll_frames fl b n fs (accepted || received) a' in
    if is_boot_request f
    then (a, record { received_frame = true; bootloader_requested = true })
    else rest

-- `Poll`, at a context and the controller's bus-off flag.
unfoldable pub poll :
    (fl : Floats)
    → Board
    → Bool
    → Bool
    → Bool
    → List (RxFrame × Services fl)
    → Adapter fl
    → Adapter fl × PollResult
poll fl b control_allowed driver_fault bus_off fs a0 =
    let a = record a0 { control_allowed = control_allowed; driver_fault = driver_fault } in
    if bus_off
    then (call recover_bus_off a, record { received_frame = false; bootloader_requested = false })
    else poll_frames fl b 8 fs false a
