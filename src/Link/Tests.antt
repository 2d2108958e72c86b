-- ===== src/Link/Tests.antt =====
-- The theorems on the CAN commands at concrete frames.
use spcd_actuator.Prelude.{
  ℕ, ◌≤◌, ◌<◌, ◌≡◌, ◌≢◌, ◌↔◌, true, false, List, [], ◌∷◌, ◌++◌, some, refl, arith, replicate,
  length,
}
use spcd_actuator.Floats.{whole}
use spcd_actuator.Snapshot.{idle}
use spcd_actuator.Link.Protocol.{
  read_i32, le32, read_u8, read_word, uses_ctrl_reply, is_command_frame_envelope,
  is_command_protocol_header, status_bad_len,
}
use spcd_actuator.Link.Commands.{
  Services, RuntimeConfig, ok, motor_stop, reply_control, send_config, start_current,
}
use spcd_actuator.Link.Adapter.{Adapter, do_start_current, to_protocol_status, Board}
use spcd_actuator.Link.Servo.{handle_servo, handle_servo_20, legacy_request}
use spcd_actuator.Link.Configuration.{
  group_size, conf_reply, configuration_get, configuration_set, handle_configuration,
}
use spcd_actuator.Link.Dispatch.{
  RxFrame, handle_frame, poll_frames, is_boot_request, is_command, handle_command, run_command,
  poll,
}
use spcd_actuator.Link.Control.{count_starts, count_replies}
use spcd_actuator.Link.Replies.{ran, reply_of, handle_frame_reply, poll_starts}
use spcd_actuator.Link.Settings.{get_after_set, IsFit, handle_configuration-IsFit}
use spcd_actuator.Link.Lengths.{handle_servo-length}

abbrev board : Board
board = record { node_id = 1; nominal_pwm_hz = 20000; motor_name = 68 ∷ 77 ∷ [] }

abbrev config : RuntimeConfig
config = record {
  motor = replicate 32 1;
  foc = replicate 24 2;
  servo = replicate 48 3;
  encoder = replicate 16 4;
}

abbrev adapter : Adapter whole
adapter = record {
  control_allowed = true;
  driver_fault = false;
  snapshot = record {
    state = idle;
    sequence = 0;
    target = 0;
    count = 0;
    send_index = 0;
    decimate = 1;
    decimation_count = 0;
    nominal_sample_hz = 0;
    dt_total_us = 0;
    duration_us = 0;
    samples = [];
  };
  config = config;
  calls = [];
}

abbrev services : Services whole
services = record {
  motor_result = ok;
  isr_enabled = true;
  chunk_ok = true;
  commit_ok = true;
  save_ok = true;
  send_config_ok = true;
  flash_valid = true;
  applied = λ c. c;
  loaded = some config;
  defaults = config;
  encoder_persisted = true;
  resistance_persisted = true;
  inductance_persisted = false;
  bemf_persisted = false;
  cogging_persisted = false;
  compensation_persisted = true;
  has_foc = true;
  resistance_ohm = 5;
  inductance_d_H = 6;
  inductance_q_H = 7;
  v_per_hz = 8;
}

-- A servo command with 20 bytes that asks for a current.
abbrev current : List ℕ
current = 1 ∷ 0 ∷ 0 ∷ 0 ∷ le32 0 ++ le32 0 ++ le32 300 ++ le32 400

abbrev command : ℕ → List ℕ → RxFrame
command cmd payload = record {
  standard_id = true;
  data_frame = true;
  identifier = 257;
  bytes = 88 ∷ 1 ∷ 1 ∷ 9 ∷ cmd ∷ payload;
}

abbrev boot_frame : RxFrame
boot_frame = record {
  standard_id = true;
  data_frame = true;
  identifier = 126;
  bytes = 66 ∷ 79 ∷ 79 ∷ 84 ∷ [];
}

abbrev frames : List (RxFrame × Services whole)
frames = (command 6 current, services) ∷ (command 0 [], services) ∷ (boot_frame, services) ∷ []

current_then_stop :
    (poll whole board true false false frames adapter).0.calls
    ≡ reply_control 0 9 0 false
      ∷ motor_stop
      ∷ reply_control 6 9 0 false
      ∷ start_current 300 400
      ∷ []
unfolding poll poll_frames is_boot_request handle_frame is_command is_command_frame_envelope
    is_command_protocol_header read_u8 uses_ctrl_reply handle_command run_command le32 handle_servo
    handle_servo_20 read_i32 legacy_request do_start_current to_protocol_status read_word
current_then_stop = refl

handle_frame_reply_example :
    ((handle_frame whole board (command 7 []) services adapter).0.calls
      ≡ reply_of board 7 9 (ran whole board (command 7 []) services adapter).1 false
        ∷ (ran whole board (command 7 []) services adapter).0.calls)
    × (count_replies (ran whole board (command 7 []) services adapter).0.calls ≡ 0)
    × ((handle_frame whole board (command 7 []) services adapter).1 ≡ true)
unfolding is_command is_command_frame_envelope is_command_protocol_header read_u8
handle_frame_reply_example = handle_frame_reply whole board (command 7 []) services adapter refl

poll_starts_example : count_starts (poll whole board false true false frames adapter).0.calls ≤ 0
poll_starts_example = poll_starts whole board false true false frames adapter

get_after_set_example :
    (configuration_get whole 5 3 services
      (configuration_set whole 4 3 (replicate 20 9) services adapter).0).0.calls
    ≡ send_config (conf_reply 5 0 3 true ++ replicate 16 9)
      ∷ (configuration_set whole 4 3 (replicate 20 9) services adapter).0.calls
unfolding group_size
get_after_set_example =
    get_after_set whole 4 5 3 (replicate 20 9) services services adapter (omega arith) (omega arith)
      refl

handle_configuration-IsFit_example :
    IsFit whole (handle_configuration whole 4 (1 ∷ 2 ∷ 0 ∷ 0 ∷ replicate 48 9) services adapter).0
handle_configuration-IsFit_example =
    handle_configuration-IsFit whole 4 (1 ∷ 2 ∷ 0 ∷ 0 ∷ replicate 48 9) services adapter (λ c h. h)
      (λ c e. ground arith) (ground arith) (ground arith)

handle_servo-length_example :
    ((handle_servo whole current services adapter).1 ≡ status_bad_len)
    ↔ (length current < 48 × (length current ≢ 8) × (length current ≢ 20))
handle_servo-length_example = handle_servo-length whole current services adapter
