-- ===== src/Link/Commands.antt =====
-- The commands that fw/middleware/src/communication/can_command_adapter.cc gives to the services, and
-- the calls that it makes on them. `float` values stand in the parameter's type.
use spcd_actuator.Prelude.{ℕ, ◌≡◌, length, Bool, List, Option}
use spcd_actuator.Floats.{Floats}

-- `math::foc::QuietNan()`
abbrev pub quiet_nan : (fl : Floats) → fl.F
quiet_nan fl = fl.of_bits 2143289344

-- `ServoMode::Command`
pub record ServoCommand (fl : Floats) : Type 0 where
  pub position_rad : fl.F
  pub velocity_rad_s : fl.F
  pub stop_position_rad : fl.F
  pub max_torque_Nm : fl.F
  pub feedforward_Nm : fl.F
  pub velocity_limit_rad_s : fl.F
  pub accel_limit_rad_s2 : fl.F
  pub kp_scale : fl.F
  pub kd_scale : fl.F
  pub ilimit_scale : fl.F
  pub id_ref_A : fl.F

-- `ServoMode::Command{}`
abbrev pub default_servo : (fl : Floats) → ServoCommand fl
default_servo fl = record {
  position_rad = quiet_nan fl;
  velocity_rad_s = fl.lit 0 0;
  stop_position_rad = quiet_nan fl;
  max_torque_Nm = quiet_nan fl;
  feedforward_Nm = fl.lit 0 0;
  velocity_limit_rad_s = quiet_nan fl;
  accel_limit_rad_s2 = quiet_nan fl;
  kp_scale = fl.lit 1 0;
  kd_scale = fl.lit 1 0;
  ilimit_scale = fl.lit 1 0;
  id_ref_A = fl.lit 0 0;
}

-- `MitMode::Command`
pub record MitCommand (fl : Floats) : Type 0 where
  pub position_rad : fl.F
  pub velocity_rad_s : fl.F
  pub kp_nm_per_rad : fl.F
  pub kd_nm_s_per_rad : fl.F
  pub feedforward_Nm : fl.F
  pub max_torque_Nm : fl.F

-- `CalibrationKind`
pub data CalibrationKind : Type 0 where
  abort encoder_phase encoder_lock bemf resistance inductance cogging : CalibrationKind

-- `CalibrationCommand`
pub record CalibrationCommand (fl : Floats) : Type 0 where
  pub kind : CalibrationKind
  pub pole_pairs : fl.F
  pub encoder_current_A : fl.F
  pub encoder_electrical_speed_rad_s : fl.F
  pub resistance_max_current_A : fl.F
  pub resistance_points : ℕ
  pub inductance_step_voltage_V : fl.F
  pub inductance_trials : ℕ
  pub bemf_max_speed_rad_s : fl.F
  pub bemf_points : ℕ
  pub cogging_velocity_rad_s : fl.F
  pub cogging_record_revs : fl.F

-- `CalibrationCommand{}`
abbrev pub default_calibration : (fl : Floats) → CalibrationCommand fl
default_calibration fl = record {
  kind = abort;
  pole_pairs = fl.lit 1 0;
  encoder_current_A = fl.lit 1 0;
  encoder_electrical_speed_rad_s = fl.lit 40 0;
  resistance_max_current_A = fl.lit 15 1;
  resistance_points = 0;
  inductance_step_voltage_V = fl.lit 0 0;
  inductance_trials = 0;
  bemf_max_speed_rad_s = fl.lit 60 0;
  bemf_points = 0;
  cogging_velocity_rad_s = fl.lit 5 0;
  cogging_record_revs = fl.lit 0 0;
}

-- `middleware::control::Result`
pub data Result : Type 0 where
  ok failed not_ready invalid_argument : Result

-- The fields of `Info` that `HandleInfo` fills in from its members and the configuration; the
-- firmware's version and the family are constants and are left out.
pub record Info : Type 0 where
  pub seq : ℕ
  pub node_id : ℕ
  pub pwm_hz : ℕ
  pub bus_mv : ℕ
  pub i_max_ma : ℕ
  pub pole_pairs : ℕ
  pub r_mohm : ℕ
  pub l_uh : ℕ
  pub motor : List ℕ

-- The calls of the adapter and the link that act on other components.
pub data Call (fl : Floats) : Type 0 where
  recover_bus_off : Call fl
  motor_stop : Call fl
  start_servo : ServoCommand fl → Call fl
  start_current : fl.F → fl.F → Call fl
  start_mit : MitCommand fl → Call fl
  start_calibration : CalibrationCommand fl → Call fl
  clear_compensation : Call fl
  set_compensation_chunk : ℕ → List ℕ → Call fl
  commit_compensation : fl.F → Call fl
  config_apply load_persistent_config config_save config_load config_restore_defaults : Call fl
  -- `ReplyControl` with the command, its sequence number, the status and the driver's fault
  reply_control : ℕ → ℕ → ℕ → Bool → Call fl
  -- `SendConfig` with the bytes
  send_config : List ℕ → Call fl
  send_info : Info → Call fl
  -- `FDCan::Send` with the identifier and the bytes
  send_raw : ℕ → List ℕ → Call fl

-- `RuntimeConfig`, each group by its bytes as `memcpy` moves them.
pub record RuntimeConfig : Type 0 where
  pub motor : List ℕ
  pub foc : List ℕ
  pub servo : List ℕ
  pub encoder : List ℕ

-- The groups have the sizes of their structs.
abbrev pub IsSized : RuntimeConfig → Type 0
IsSized c =
    (length c.motor ≡ 32) × (length c.foc ≡ 24) × (length c.servo ≡ 48) × (length c.encoder ≡ 16)

-- What the services answer while one command is handled.
pub record Services (fl : Floats) : Type 0 where
  -- of `StartServo`, `StartCurrent`, `StartMit` and `StartCalibration`
  pub motor_result : Result
  pub isr_enabled : Bool
  pub chunk_ok : Bool
  pub commit_ok : Bool
  pub save_ok : Bool
  pub send_config_ok : Bool
  pub flash_valid : Bool
  -- what `Apply()` and `LoadPersistentConfig()` make of a configuration
  pub applied : RuntimeConfig → RuntimeConfig
  -- the configuration after `Load()`, or none where it fails, and after `RestoreDefaults()`
  pub loaded : Option RuntimeConfig
  pub defaults : RuntimeConfig
  -- what calibration is in flash: encoder, resistance, inductance, bemf, cogging, compensation
  pub encoder_persisted : Bool
  pub resistance_persisted : Bool
  pub inductance_persisted : Bool
  pub bemf_persisted : Bool
  pub cogging_persisted : Bool
  pub compensation_persisted : Bool
  -- is there a FOC object, and its values
  pub has_foc : Bool
  pub resistance_ohm : fl.F
  pub inductance_d_H : fl.F
  pub inductance_q_H : fl.F
  pub v_per_hz : fl.F
