-- ===== src/Link/Calibration.antt =====
-- can_command_adapter.cc: `HandleCalibration` and `HandleEncoderCompensation`.
use spcd_actuator.Prelude.{
  ℕ, List, Option, none, some, if◌then◌else◌, ltb, leb, ◌==◌, not, length, take, drop,
}
use spcd_actuator.Floats.{Floats}
use spcd_actuator.Link.Protocol.{
  read_u8, read_word, is_positive, status_ok, status_bad_len, status_bad_cmd, status_not_run,
  status_fail,
}
use spcd_actuator.Link.Commands.{
  Services, CalibrationCommand, default_calibration, abort, encoder_phase, encoder_lock, resistance,
  inductance, bemf, cogging, start_calibration, clear_compensation, set_compensation_chunk,
  commit_compensation,
}
use spcd_actuator.Link.Adapter.{Adapter, call, to_protocol_status}
use spcd_actuator.Link.Servo.{milli}

-- `sizeof(CalRequest)`, `sizeof(EncCompRequest)`
abbrev pub cal_request_size : ℕ
cal_request_size = 10

abbrev pub enc_comp_request_size : ℕ
enc_comp_request_size = 40

-- The points of a sweep: untouched (0) unless the word is positive, and at most 255.
unfoldable pub clamp_points : ℕ → ℕ
clamp_points w = if is_positive w then (if ltb 255 w then 255 else w) else 0

-- The command of a request with its subcommand, and none for an unknown one.
unfoldable pub calibration_command :
    (fl : Floats) → ℕ → ℕ → ℕ → List ℕ → Option (CalibrationCommand fl)
calibration_command fl subcmd voltage_mV omega_elec_mrad_s motor_conf =
    let base = default_calibration fl in
    let rate = milli fl omega_elec_mrad_s in
    if subcmd == 0
    then some (record base { kind = abort })
    else if subcmd == 1
    then some (record base {
      kind = encoder_phase;
      encoder_current_A = milli fl voltage_mV;
      encoder_electrical_speed_rad_s = rate;
      pole_pairs = fl.of_bits (read_word motor_conf 0);
    })
    else if subcmd == 2
    then some (record base {
      kind = encoder_lock;
      encoder_current_A = milli fl voltage_mV;
      encoder_electrical_speed_rad_s = rate;
      pole_pairs = fl.of_bits (read_word motor_conf 0);
    })
    else if subcmd == 3
    then some (record base {
      kind = bemf;
      bemf_max_speed_rad_s = rate;
      bemf_points = clamp_points voltage_mV;
    })
    else if subcmd == 4
    then some (record base {
      kind = resistance;
      resistance_max_current_A = rate;
      resistance_points = clamp_points voltage_mV;
    })
    else if subcmd == 5
    then some (record base {
      kind = inductance;
      inductance_step_voltage_V = milli fl voltage_mV;
      inductance_trials = clamp_points omega_elec_mrad_s;
    })
    else if subcmd == 6
    then some (record base {
      kind = cogging;
      cogging_velocity_rad_s = rate;
      cogging_record_revs = fl.mul (fl.of_i32 voltage_mV) (fl.lit 1 2);
    })
    else none

-- The `switch` of `HandleCalibration` and the start.
unfoldable pub start_decoded :
    {fl : Floats} → Option (CalibrationCommand fl) → Services fl → Adapter fl → Adapter fl × ℕ
start_decoded none r a = (a, status_bad_cmd)
start_decoded (some command) r a =
    (call (start_calibration command) a, to_protocol_status r.motor_result)

-- `HandleCalibration`
unfoldable pub handle_calibration :
    (fl : Floats) → List ℕ → Services fl → Adapter fl → Adapter fl × ℕ
handle_calibration fl p r a =
    if not a.control_allowed
    then (a, status_not_run)
    else if ltb (length p) cal_request_size
    then (a, status_bad_len)
    else start_decoded
        (calibration_command fl (read_u8 p 0) (read_word p 2) (read_word p 6) a.config.motor) r a

-- The chunk and the commit of `HandleEncoderCompensation`.
unfoldable pub compensation_chunk :
    (fl : Floats) → List ℕ → Services fl → Adapter fl → Adapter fl × ℕ
compensation_chunk fl p r a = if leb 8 (read_u8 p 1) then (a, status_bad_cmd) else (
  call (set_compensation_chunk (read_u8 p 1) (take 32 (drop 8 p))) a,
  if r.chunk_ok then status_ok else status_bad_cmd,
)

unfoldable pub compensation_commit :
    (fl : Floats) → List ℕ → Services fl → Adapter fl → Adapter fl × ℕ
compensation_commit fl p r a =
    let peak_rad = fl.mul (fl.of_i32 (read_word p 4)) (fl.lit 1 6) in
    if fl.le peak_rad (fl.lit 0 0) then (a, status_bad_cmd) else (
      call (commit_compensation (fl.div peak_rad (fl.lit 127 0))) a,
      if r.commit_ok then status_ok else status_fail,
    )

-- `HandleEncoderCompensation`
unfoldable pub handle_encoder_compensation :
    (fl : Floats) → List ℕ → Services fl → Adapter fl → Adapter fl × ℕ
handle_encoder_compensation fl p r a =
    if not a.control_allowed
    then (a, status_not_run)
    else if ltb (length p) enc_comp_request_size
    then (a, status_bad_len)
    else if read_u8 p 0 == 0
    then (call clear_compensation a, status_ok)
    else if read_u8 p 0 == 1
    then compensation_chunk fl p r a
    else if read_u8 p 0 == 2
    then compensation_commit fl p r a
    else (a, status_bad_cmd)
