-- ===== src/Link/Control.antt =====
-- What handling a command can do to the motor, and the replies that it gives.
use spcd_actuator.Prelude.{
  ℕ, suc, ◌+◌, ◌≤◌, ◌≡◌, Bool, true, false, List, drop, [], ◌∷◌, Option, none, some, arith, inl,
  inr, Option-cases,
}
use spcd_actuator.Floats.{Floats}
use spcd_actuator.Snapshot.{max_samples}
use spcd_actuator.Link.Protocol.{read_i32, read_u8, read_u16, read_word}
use spcd_actuator.Link.Commands.{
  Call, Services, ServoCommand, MitCommand, RuntimeConfig, CalibrationCommand, start_servo,
  start_current, start_mit, start_calibration, clear_compensation, set_compensation_chunk,
  commit_compensation, reply_control, send_raw,
}
use spcd_actuator.Link.Adapter.{Adapter, Board, do_start_servo, do_start_current, do_start_mit}
use spcd_actuator.Link.Servo.{
  handle_servo, handle_servo_8, handle_servo_20, handle_servo_full, legacy_request, legacy_velocity,
  legacy_position, milli, servo_command, mit_command,
}
use spcd_actuator.Link.Calibration.{
  handle_calibration, calibration_command, start_decoded, handle_encoder_compensation,
  compensation_chunk, compensation_commit,
}
use spcd_actuator.Link.Configuration.{
  handle_configuration, configuration_get, configuration_set, configuration_save, load_result,
  store_group, send_configuration_group, send_bytes, group_bytes, conf_reply, op_get,
}
use spcd_actuator.Link.Dispatch.{run_command, handle_info, handle_snapshot, arm_snapshot}

-- The calls that the handlers make only where control is allowed: the starts of the three modes and
-- of a calibration, and the upload of the encoder's compensation.
abbrev pub count_starts : {fl : Floats} → List (Call fl) → ℕ
count_starts [] = 0
count_starts (start_servo _ ∷ cs) = suc (count_starts cs)
count_starts (start_current _ _ ∷ cs) = suc (count_starts cs)
count_starts (start_mit _ ∷ cs) = suc (count_starts cs)
count_starts (start_calibration _ ∷ cs) = suc (count_starts cs)
count_starts (clear_compensation ∷ cs) = suc (count_starts cs)
count_starts (set_compensation_chunk _ _ ∷ cs) = suc (count_starts cs)
count_starts (commit_compensation _ ∷ cs) = suc (count_starts cs)
count_starts (_ ∷ cs) = count_starts cs

-- The replies: those of the telemetry publisher, and frames of the link itself.
abbrev pub count_replies : {fl : Floats} → List (Call fl) → ℕ
count_replies [] = 0
count_replies (reply_control _ _ _ _ ∷ cs) = suc (count_replies cs)
count_replies (send_raw _ _ ∷ cs) = suc (count_replies cs)
count_replies (_ ∷ cs) = count_replies cs

-- How many starts a command may make.
abbrev pub allowance : Bool → ℕ
allowance true = 1
allowance false = 0

-- What a handler keeps: the flags and the replies; and it makes no more starts than allowed.
abbrev pub Keeps : {fl : Floats} → Adapter fl → Adapter fl → Type 0
Keeps a a' =
    (a'.driver_fault ≡ a.driver_fault)
    × (a'.control_allowed ≡ a.control_allowed)
    × (count_replies a'.calls ≡ count_replies a.calls)
    × (count_starts a'.calls ≤ count_starts a.calls + allowance a.control_allowed)

module _ (fl : Floats) where
  do_start_servo-Keeps :
      (c : ServoCommand fl) (r : Services fl) (a : Adapter fl) → Keeps a (do_start_servo fl c r a).0
  unfolding do_start_servo
  do_start_servo-Keeps c r a = ground arith

  do_start_current-Keeps :
      (d q : fl.F) (r : Services fl) (a : Adapter fl) → Keeps a (do_start_current fl d q r a).0
  unfolding do_start_current
  do_start_current-Keeps d q r a = ground arith

  do_start_mit-Keeps :
      (c : MitCommand fl) (r : Services fl) (a : Adapter fl) → Keeps a (do_start_mit fl c r a).0
  unfolding do_start_mit
  do_start_mit-Keeps c r a = ground arith

  handle_servo_8-Keeps :
      (p : List ℕ) (r : Services fl) (a : Adapter fl) → Keeps a (handle_servo_8 fl p r a).0
  unfolding handle_servo_8
  handle_servo_8-Keeps p r a = elim (Option-cases (read_i32 p 0)) [
    | inl e ↦ ground arith
    | inr (v, e) ↦ elim (Option-cases (read_i32 p 4)) [
      | inl e' ↦ ground arith
      | inr (d, e') ↦ ground (arith, do_start_servo-Keeps (legacy_velocity fl v d) r a)
    ]
  ]

  legacy_request-Keeps :
      (c x v d q : ℕ) (r : Services fl) (a : Adapter fl)
      → Keeps a (legacy_request fl c x v d q r a).0
  unfolding legacy_request
  legacy_request-Keeps c x v d q r a = ground (
    arith,
    do_start_servo-Keeps (legacy_position fl x v d) r a,
    do_start_current-Keeps (milli fl d) (milli fl q) r a,
  )

  handle_servo_20-Keeps :
      (p : List ℕ) (r : Services fl) (a : Adapter fl) → Keeps a (handle_servo_20 fl p r a).0
  unfolding handle_servo_20
  handle_servo_20-Keeps p r a = elim (Option-cases (read_i32 p 4)) [
    | inl e ↦ ground arith
    | inr (x, e) ↦ elim (Option-cases (read_i32 p 8)) [
      | inl e' ↦ ground arith
      | inr (v, e') ↦ elim (Option-cases (read_i32 p 12)) [
        | inl e'' ↦ ground arith
        | inr (d, e'') ↦ elim (Option-cases (read_i32 p 16)) [
          | inl e''' ↦ ground arith
          | inr (q, e''') ↦ ground (arith, legacy_request-Keeps (read_u8 p 0) x v d q r a)
        ]
      ]
    ]
  ]

  handle_servo_full-Keeps :
      (p : List ℕ) (r : Services fl) (a : Adapter fl) → Keeps a (handle_servo_full fl p r a).0
  unfolding handle_servo_full
  handle_servo_full-Keeps p r a = ground (
    arith,
    do_start_current-Keeps (milli fl (read_word p 12)) (milli fl (read_word p 16)) r a,
    do_start_servo-Keeps (servo_command fl p) r a,
    do_start_mit-Keeps (mit_command fl p) r a,
  )

  handle_servo-Keeps :
      (p : List ℕ) (r : Services fl) (a : Adapter fl) → Keeps a (handle_servo fl p r a).0
  unfolding handle_servo
  handle_servo-Keeps p r a = ground (
    arith,
    handle_servo_8-Keeps p r a,
    handle_servo_20-Keeps p r a,
    handle_servo_full-Keeps p r a,
  )

  start_decoded-Keeps :
      (c : Option (CalibrationCommand fl)) (r : Services fl) (a : Adapter fl)
      → a.control_allowed ≡ true
      → Keeps a (start_decoded c r a).0
  unfolding start_decoded
  start_decoded-Keeps none r a h = ground arith
  start_decoded-Keeps (some c) r a h = ground arith

  handle_calibration-Keeps :
      (p : List ℕ) (r : Services fl) (a : Adapter fl) → Keeps a (handle_calibration fl p r a).0
  unfolding handle_calibration
  handle_calibration-Keeps p r a = ground (
    arith,
    start_decoded-Keeps
        (calibration_command fl (read_u8 p 0) (read_word p 2) (read_word p 6) a.config.motor) r a,
  )

  compensation_chunk-Keeps :
      (p : List ℕ) (r : Services fl) (a : Adapter fl)
      → a.control_allowed ≡ true
      → Keeps a (compensation_chunk fl p r a).0
  unfolding compensation_chunk
  compensation_chunk-Keeps p r a h = ground arith

  compensation_commit-Keeps :
      (p : List ℕ) (r : Services fl) (a : Adapter fl)
      → a.control_allowed ≡ true
      → Keeps a (compensation_commit fl p r a).0
  unfolding compensation_commit
  compensation_commit-Keeps p r a h = ground arith

  handle_encoder_compensation-Keeps :
      (p : List ℕ) (r : Services fl) (a : Adapter fl)
      → Keeps a (handle_encoder_compensation fl p r a).0
  unfolding handle_encoder_compensation
  handle_encoder_compensation-Keeps p r a =
      ground (arith, compensation_chunk-Keeps p r a, compensation_commit-Keeps p r a)

  send_bytes-Keeps :
      (o : Option (List ℕ)) (header : List ℕ) (r : Services fl) (a : Adapter fl)
      → Keeps a (send_bytes o header r a).0
  unfolding send_bytes
  send_bytes-Keeps none header r a = ground arith
  send_bytes-Keeps (some bytes) header r a = ground arith

  send_configuration_group-Keeps :
      (seq op group : ℕ) (r : Services fl) (a : Adapter fl)
      → Keeps a (send_configuration_group fl seq op group r a).0
  unfolding send_configuration_group
  send_configuration_group-Keeps seq op group r a =
      send_bytes-Keeps (group_bytes fl group r a.config) (conf_reply seq op group r.flash_valid) r a

  store_group-Keeps :
      (seq group : ℕ) (body : List ℕ) (r : Services fl) (a : Adapter fl)
      → Keeps a (store_group fl seq group body r a).0
  unfolding store_group
  store_group-Keeps seq group body r a = send_configuration_group-Keeps seq _ group r _

  configuration_get-Keeps :
      (seq group : ℕ) (r : Services fl) (a : Adapter fl)
      → Keeps a (configuration_get fl seq group r a).0
  unfolding configuration_get
  configuration_get-Keeps seq group r a =
      ground (arith, send_configuration_group-Keeps seq op_get group r a)

  configuration_set-Keeps :
      (seq group : ℕ) (body : List ℕ) (r : Services fl) (a : Adapter fl)
      → Keeps a (configuration_set fl seq group body r a).0
  unfolding configuration_set
  configuration_set-Keeps seq group body r a = ground (arith, store_group-Keeps seq group body r a)

  configuration_save-Keeps :
      (group : ℕ) (r : Services fl) (a : Adapter fl) → Keeps a (configuration_save fl group r a).0
  unfolding configuration_save
  configuration_save-Keeps group r a = ground arith

  load_result-Keeps :
      (o : Option RuntimeConfig) (a : Adapter fl) → Keeps a (load_result {fl = fl} o a).0
  unfolding load_result
  load_result-Keeps none a = ground arith
  load_result-Keeps (some c) a = ground arith

  handle_configuration-Keeps :
      (seq : ℕ) (p : List ℕ) (r : Services fl) (a : Adapter fl)
      → Keeps a (handle_configuration fl seq p r a).0
  unfolding handle_configuration
  handle_configuration-Keeps seq p r a = ground (
    arith,
    configuration_get-Keeps seq (read_u8 p 1) r a,
    configuration_set-Keeps seq (read_u8 p 1) (drop 4 p) r a,
    configuration_save-Keeps (read_u8 p 1) r a,
    load_result-Keeps r.loaded a,
  )

  handle_info-Keeps : (b : Board) (seq : ℕ) (a : Adapter fl) → Keeps a (handle_info fl b seq a).0
  unfolding handle_info
  handle_info-Keeps b seq a = ground arith

  arm_snapshot-Keeps :
      (b : Board) (seq n d : ℕ) (a : Adapter fl) → Keeps a (arm_snapshot b seq n d a).0
  unfolding arm_snapshot
  arm_snapshot-Keeps b seq n d a = ground arith

  handle_snapshot-Keeps :
      (b : Board) (seq : ℕ) (p : List ℕ) (r : Services fl) (a : Adapter fl)
      → Keeps a (handle_snapshot fl b seq p r a).0
  unfolding handle_snapshot
  handle_snapshot-Keeps b seq p r a = ground (
    arith,
    arm_snapshot-Keeps b seq (read_u16 p 0) (read_u8 p 2) a,
    arm_snapshot-Keeps b seq max_samples 1 a,
  )

  -- Running a command keeps the flags and gives no reply, and starts the motor or changes its
  -- calibration at most once, never where control is forbidden.
  pub run_command-Keeps :
      (b : Board) (cmd seq : ℕ) (p : List ℕ) (r : Services fl) (a : Adapter fl)
      → Keeps a (run_command fl b cmd seq p r a).0
  unfolding run_command
  run_command-Keeps b cmd seq p r a = ground (
    arith,
    handle_servo-Keeps p r a,
    handle_calibration-Keeps p r a,
    handle_info-Keeps b seq a,
    handle_snapshot-Keeps b seq p r a,
    handle_encoder_compensation-Keeps p r a,
    handle_configuration-Keeps seq p r a,
  )
