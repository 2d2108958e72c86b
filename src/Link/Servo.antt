-- ===== src/Link/Servo.antt =====
-- can_command_adapter.cc: `HandleServo`.
use spcd_actuator.Prelude.{ℕ, List, none, some, if◌then◌else◌, ltb, ◌==◌, not, length}
use spcd_actuator.Floats.{Floats}
use spcd_actuator.Link.Protocol.{
  read_u8, read_u16, read_i32, read_word, is_positive, position_nan_mrad, status_bad_len,
  status_bad_cmd,
}
use spcd_actuator.Link.Commands.{Services, ServoCommand, MitCommand, default_servo, quiet_nan}
use spcd_actuator.Link.Adapter.{Adapter, do_start_servo, do_start_current, do_start_mit}

-- `kServoCtrlPosition`, `kServoCtrlCurrent`, `kServoCtrlMit`
abbrev pub ctrl_position : ℕ
ctrl_position = 0

abbrev pub ctrl_current : ℕ
ctrl_current = 1

abbrev pub ctrl_mit : ℕ
ctrl_mit = 2

-- `sizeof(ServoRequest)`
abbrev pub servo_request_size : ℕ
servo_request_size = 48

-- `static_cast<float>(x) * 0.001f`, also `MilliToAmps`
abbrev pub milli : (fl : Floats) → ℕ → fl.F
milli fl x = fl.mul (fl.of_i32 x) (fl.lit 1 3)

-- `MilliScale`
unfoldable pub milli_scale : (fl : Floats) → ℕ → fl.F
milli_scale fl x = if x == 0 then fl.lit 1 0 else fl.mul (fl.of_u32 x) (fl.lit 1 3)

-- `DecodeMaybeRad`
unfoldable pub decode_maybe_rad : (fl : Floats) → ℕ → fl.F
decode_maybe_rad fl x = if x == position_nan_mrad then quiet_nan fl else milli fl x

-- `(max_torque_mNm <= 0) ? QuietNan() : max_torque_mNm * 0.001f`
unfoldable pub decode_torque : (fl : Floats) → ℕ → fl.F
decode_torque fl x = if is_positive x then milli fl x else quiet_nan fl

-- The commands of the 8-byte and the 20-byte payload.
unfoldable pub legacy_velocity : (fl : Floats) → ℕ → ℕ → ServoCommand fl
legacy_velocity fl velocity_mrad_s id_mA = record (default_servo fl) {
  position_rad = quiet_nan fl;
  velocity_rad_s = milli fl velocity_mrad_s;
  id_ref_A = milli fl id_mA;
}

unfoldable pub legacy_position : (fl : Floats) → ℕ → ℕ → ℕ → ServoCommand fl
legacy_position fl position_mrad velocity_mrad_s id_mA = record (default_servo fl) {
  position_rad = decode_maybe_rad fl position_mrad;
  velocity_rad_s = milli fl velocity_mrad_s;
  id_ref_A = milli fl id_mA;
}

-- The command of a full `ServoRequest` in each of the two modes that take one.
unfoldable pub mit_command : (fl : Floats) → List ℕ → MitCommand fl
mit_command fl p = record {
  position_rad = milli fl (read_word p 4);
  velocity_rad_s = milli fl (read_word p 8);
  kp_nm_per_rad = milli fl (read_word p 12);
  kd_nm_s_per_rad = milli fl (read_word p 16);
  feedforward_Nm = milli fl (read_word p 28);
  max_torque_Nm = decode_torque fl (read_word p 24);
}

unfoldable pub servo_command : (fl : Floats) → List ℕ → ServoCommand fl
servo_command fl p = record {
  position_rad = decode_maybe_rad fl (read_word p 4);
  velocity_rad_s = milli fl (read_word p 8);
  stop_position_rad = decode_maybe_rad fl (read_word p 20);
  max_torque_Nm = decode_torque fl (read_word p 24);
  feedforward_Nm = milli fl (read_word p 28);
  velocity_limit_rad_s = decode_maybe_rad fl (read_word p 32);
  accel_limit_rad_s2 = decode_maybe_rad fl (read_word p 36);
  kp_scale = milli_scale fl (read_u16 p 40);
  kd_scale = milli_scale fl (read_u16 p 42);
  ilimit_scale = milli_scale fl (read_u16 p 44);
  id_ref_A = milli fl (read_word p 12);
}

-- The branches of `HandleServo`: 8 bytes, 20 bytes, and at least 48 bytes.
unfoldable pub handle_servo_8 : (fl : Floats) → List ℕ → Services fl → Adapter fl → Adapter fl × ℕ
handle_servo_8 fl p r a = elim (read_i32 p 0) [
  | none ↦ (a, status_bad_len)
  | some velocity_mrad_s ↦ elim (read_i32 p 4) [
    | none ↦ (a, status_bad_len)
    | some id_mA ↦ do_start_servo fl (legacy_velocity fl velocity_mrad_s id_mA) r a
  ]
]

-- The values of the 20-byte payload, once they are read.
unfoldable pub legacy_request :
    (fl : Floats) → ℕ → ℕ → ℕ → ℕ → ℕ → Services fl → Adapter fl → Adapter fl × ℕ
legacy_request fl control position_mrad velocity_mrad_s id_mA iq_mA r a =
    if control == ctrl_current
    then do_start_current fl (milli fl id_mA) (milli fl iq_mA) r a
    else if not (control == ctrl_position)
    then (a, status_bad_cmd)
    else do_start_servo fl (legacy_position fl position_mrad velocity_mrad_s id_mA) r a

unfoldable pub handle_servo_20 : (fl : Floats) → List ℕ → Services fl → Adapter fl → Adapter fl × ℕ
handle_servo_20 fl p r a = elim (read_i32 p 4) [
  | none ↦ (a, status_bad_len)
  | some position_mrad ↦ elim (read_i32 p 8) [
    | none ↦ (a, status_bad_len)
    | some velocity_mrad_s ↦ elim (read_i32 p 12) [
      | none ↦ (a, status_bad_len)
      | some id_mA ↦ elim (read_i32 p 16) [
        | none ↦ (a, status_bad_len)
        | some iq_mA ↦ legacy_request fl (read_u8 p 0) position_mrad velocity_mrad_s id_mA iq_mA r a
      ]
    ]
  ]
]

unfoldable pub handle_servo_full :
    (fl : Floats) → List ℕ → Services fl → Adapter fl → Adapter fl × ℕ
handle_servo_full fl p r a =
    if read_u8 p 0 == ctrl_current
    then do_start_current fl (milli fl (read_word p 12)) (milli fl (read_word p 16)) r a
    else if read_u8 p 0 == ctrl_mit
    then do_start_mit fl (mit_command fl p) r a
    else if not (read_u8 p 0 == ctrl_position)
    then (a, status_bad_cmd)
    else do_start_servo fl (servo_command fl p) r a

-- `HandleServo`
unfoldable pub handle_servo : (fl : Floats) → List ℕ → Services fl → Adapter fl → Adapter fl × ℕ
handle_servo fl p r a =
    if length p == 8
    then handle_servo_8 fl p r a
    else if length p == 20
    then handle_servo_20 fl p r a
    else if ltb (length p) servo_request_size
    then (a, status_bad_len)
    else handle_servo_full fl p r a
