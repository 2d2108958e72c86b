-- ===== src/Link/Lengths.antt =====
-- The lengths of servo payloads.
use spcd_actuator.Prelude.{ℕ, ◌+◌, ◌≤◌, ◌<◌, ◌≡◌, ◌≢◌, ◌↔◌, List, some, arith, length}
use spcd_actuator.Floats.{Floats}
use spcd_actuator.Link.Protocol.{status_bad_len, read_i32, read_u8, read_word}
use spcd_actuator.Link.Commands.{Services, Result, ok, failed, not_ready, invalid_argument}
use spcd_actuator.Link.Adapter.{
  Adapter, to_protocol_status, do_start_servo, do_start_current, do_start_mit,
}
use spcd_actuator.Link.Servo.{
  handle_servo, handle_servo_8, handle_servo_20, handle_servo_full, legacy_request, legacy_velocity,
  legacy_position, milli, servo_command, mit_command,
}

-- The statuses of a start are not the one for a bad length.
to_protocol_status-ne : (x : Result) → to_protocol_status x ≢ status_bad_len
unfolding to_protocol_status
to_protocol_status-ne ok = ground arith
to_protocol_status-ne failed = ground arith
to_protocol_status-ne not_ready = ground arith
to_protocol_status-ne invalid_argument = ground arith

module _ (fl : Floats) where
  read_i32-within :
      (p : List ℕ) (off : ℕ) → off + 4 ≤ length p → read_i32 p off ≡ some (read_word p off)
  unfolding read_i32
  read_i32-within p off h = ground arith

  do_start_servo-ne :
      (c : _) (r : Services fl) (a : Adapter fl) → (do_start_servo fl c r a).1 ≢ status_bad_len
  unfolding do_start_servo
  do_start_servo-ne c r a = ground (arith, to_protocol_status-ne r.motor_result)

  do_start_current-ne :
      (d q : fl.F) (r : Services fl) (a : Adapter fl)
      → (do_start_current fl d q r a).1 ≢ status_bad_len
  unfolding do_start_current
  do_start_current-ne d q r a = ground (arith, to_protocol_status-ne r.motor_result)

  do_start_mit-ne :
      (c : _) (r : Services fl) (a : Adapter fl) → (do_start_mit fl c r a).1 ≢ status_bad_len
  unfolding do_start_mit
  do_start_mit-ne c r a = ground (arith, to_protocol_status-ne r.motor_result)

  handle_servo_8-ne :
      (p : List ℕ) (r : Services fl) (a : Adapter fl)
      → length p ≡ 8
      → (handle_servo_8 fl p r a).1 ≢ status_bad_len
  unfolding handle_servo_8
  handle_servo_8-ne p r a h = ground (
    arith,
    read_i32-within p 0,
    read_i32-within p 4,
    do_start_servo-ne (legacy_velocity fl (read_word p 0) (read_word p 4)) r a,
  )

  legacy_request-ne :
      (c x v d q : ℕ) (r : Services fl) (a : Adapter fl)
      → (legacy_request fl c x v d q r a).1 ≢ status_bad_len
  unfolding legacy_request
  legacy_request-ne c x v d q r a = ground (
    arith,
    do_start_current-ne (milli fl d) (milli fl q) r a,
    do_start_servo-ne (legacy_position fl x v d) r a,
  )

  handle_servo_20-ne :
      (p : List ℕ) (r : Services fl) (a : Adapter fl)
      → length p ≡ 20
      → (handle_servo_20 fl p r a).1 ≢ status_bad_len
  unfolding handle_servo_20
  handle_servo_20-ne p r a h = ground (
    arith,
    read_i32-within p 4,
    read_i32-within p 8,
    read_i32-within p 12,
    read_i32-within p 16,
    legacy_request-ne (read_u8 p 0) (read_word p 4) (read_word p 8) (read_word p 12)
        (read_word p 16) r a,
  )

  handle_servo_full-ne :
      (p : List ℕ) (r : Services fl) (a : Adapter fl)
      → (handle_servo_full fl p r a).1 ≢ status_bad_len
  unfolding handle_servo_full
  handle_servo_full-ne p r a = ground (
    arith,
    do_start_current-ne (milli fl (read_word p 12)) (milli fl (read_word p 16)) r a,
    do_start_mit-ne (mit_command fl p) r a,
    do_start_servo-ne (servo_command fl p) r a,
  )

  -- A servo command is refused for its length exactly where its payload has neither 8 nor 20 nor at
  -- least 48 bytes: no read of a field fails in a payload of an accepted length.
  pub handle_servo-length :
      (p : List ℕ) (r : Services fl) (a : Adapter fl)
      → ((handle_servo fl p r a).1 ≡ status_bad_len)
        ↔ (length p < 48 × (length p ≢ 8) × (length p ≢ 20))
  unfolding handle_servo
  handle_servo-length p r a = (
    λ e.
        ground
          (arith, handle_servo_8-ne p r a, handle_servo_20-ne p r a, handle_servo_full-ne p r a),
    λ h. ground arith,
  )
