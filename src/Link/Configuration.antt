-- ===== src/Link/Configuration.antt =====
-- can_command_adapter.cc: `SendConfigurationGroup` and `HandleConfiguration`.
use spcd_actuator.Prelude.{
  ℕ, ◌+◌, List, [], ◌∷◌, ◌++◌, Option, none, some, if◌then◌else◌, ltb, ◌==◌, not, length, take,
  drop, Bool, ◌&&◌,
}
use spcd_actuator.Floats.{Floats}
use spcd_actuator.Link.Protocol.{
  magic, version, type_conf, read_u8, le32, status_ok, status_bad_len, status_bad_cmd, status_fail,
}
use spcd_actuator.Link.Commands.{
  Services, RuntimeConfig, quiet_nan, config_apply, load_persistent_config, config_save,
  config_load, config_restore_defaults, send_config,
}
use spcd_actuator.Link.Adapter.{Adapter, call}

-- `kConfGroupMotor` and the other groups.
abbrev pub group_motor : ℕ
group_motor = 0

abbrev pub group_foc : ℕ
group_foc = 1

abbrev pub group_servo : ℕ
group_servo = 2

abbrev pub group_encoder : ℕ
group_encoder = 3

abbrev pub group_cal : ℕ
group_cal = 4

abbrev pub group_all : ℕ
group_all = 255

-- `kConfOpGet` and the other operations.
abbrev pub op_get : ℕ
op_get = 0

abbrev pub op_set : ℕ
op_set = 1

abbrev pub op_save : ℕ
op_save = 2

abbrev pub op_load : ℕ
op_load = 3

abbrev pub op_defaults : ℕ
op_defaults = 4

-- `GroupSize`, the sizes of `MotorConf`, `FocConf`, `ServoConf`, `EncoderConf` and `CalStatusConf`.
unfoldable pub group_size : ℕ → ℕ
group_size group =
    if group == group_motor
    then 32
    else if group == group_foc
    then 24
    else if group == group_servo
    then 48
    else if group == group_encoder
    then 16
    else if group == group_cal
    then 20
    else 0

abbrev flag : Bool → ℕ → ℕ
flag b weight = if b then weight else 0

-- The flags of `CalStatusConf`.
unfoldable pub cal_flags : {fl : Floats} → Services fl → ℕ
cal_flags r =
    flag r.encoder_persisted 1
    + flag r.resistance_persisted 2
    + flag r.inductance_persisted 4
    + flag r.bemf_persisted 8
    + flag r.cogging_persisted 16
    + flag r.compensation_persisted 32

-- The bytes of a value of the FOC object where it is persisted, and of NaN elsewhere.
unfoldable pub cal_value : (fl : Floats) → Bool → fl.F → List ℕ
cal_value fl known value = le32 (fl.to_bits (if known then value else quiet_nan fl))

-- `CalStatusConf`
unfoldable pub cal_status : (fl : Floats) → Services fl → List ℕ
cal_status fl r =
    le32 (cal_flags r)
    ++ cal_value fl (r.has_foc && r.resistance_persisted) r.resistance_ohm
    ++ cal_value fl (r.has_foc && r.inductance_persisted) r.inductance_d_H
    ++ cal_value fl (r.has_foc && r.inductance_persisted) r.inductance_q_H
    ++ cal_value fl (r.has_foc && r.bemf_persisted) r.v_per_hz

-- The group's bytes that `SendConfigurationGroup` puts behind the header, none for an unknown group.
unfoldable pub group_bytes : (fl : Floats) → ℕ → Services fl → RuntimeConfig → Option (List ℕ)
group_bytes fl group r config =
    if group == group_motor
    then some config.motor
    else if group == group_foc
    then some config.foc
    else if group == group_servo
    then some config.servo
    else if group == group_encoder
    then some config.encoder
    else if group == group_cal
    then some (cal_status fl r)
    else none

-- `ConfReply`
unfoldable pub conf_reply : ℕ → ℕ → ℕ → Bool → List ℕ
conf_reply seq op group flash_valid =
    magic ∷ version ∷ type_conf ∷ seq ∷ op ∷ group ∷ flag flash_valid 1 ∷ 0 ∷ []

-- `SendConfigurationGroup`, once the group's bytes are known: the flag that it returns as a status.
unfoldable pub send_bytes :
    {fl : Floats} → Option (List ℕ) → List ℕ → Services fl → Adapter fl → Adapter fl × ℕ
send_bytes none header r a = (a, status_fail)
send_bytes (some bytes) header r a =
    (call (send_config (header ++ bytes)) a, if r.send_config_ok then status_ok else status_fail)

unfoldable pub send_configuration_group :
    (fl : Floats) → ℕ → ℕ → ℕ → Services fl → Adapter fl → Adapter fl × ℕ
send_configuration_group fl seq op group r a =
    send_bytes (group_bytes fl group r a.config) (conf_reply seq op group r.flash_valid) r a

-- The `memcpy` of a SET into its group.
unfoldable pub set_group : ℕ → List ℕ → RuntimeConfig → RuntimeConfig
set_group group bytes config =
    if group == group_motor
    then record config { motor = bytes }
    else if group == group_foc
    then record config { foc = bytes }
    else if group == group_servo
    then record config { servo = bytes }
    else if group == group_encoder
    then record config { encoder = bytes }
    else config

-- A SET with enough bytes: the copy, `Apply`, `LoadPersistentConfig`, and the echo.
unfoldable pub store_group :
    (fl : Floats) → ℕ → ℕ → List ℕ → Services fl → Adapter fl → Adapter fl × ℕ
store_group fl seq group body r a =
    let copied = set_group group (take (group_size group) body) a.config in
    let applied =
      call load_persistent_config (call config_apply (record a { config = r.applied copied })) in
    send_configuration_group fl seq op_set group r applied

unfoldable pub configuration_get : (fl : Floats) → ℕ → ℕ → Services fl → Adapter fl → Adapter fl × ℕ
configuration_get fl seq group r a =
    if group == group_all
    then (a, status_bad_cmd)
    else if group_size group == 0
    then (a, status_bad_cmd)
    else send_configuration_group fl seq op_get group r a

unfoldable pub configuration_set :
    (fl : Floats) → ℕ → ℕ → List ℕ → Services fl → Adapter fl → Adapter fl × ℕ
configuration_set fl seq group body r a =
    if group == group_cal
    then (a, status_bad_cmd)
    else if group_size group == 0
    then (a, status_bad_len)
    else if ltb (length body) (group_size group)
    then (a, status_bad_len)
    else store_group fl seq group body r a

unfoldable pub configuration_save : (fl : Floats) → ℕ → Services fl → Adapter fl → Adapter fl × ℕ
configuration_save fl group r a =
    if not (group == group_all) && group_size group == 0
    then (a, status_bad_cmd)
    else (call config_save a, if r.save_ok then status_ok else status_fail)

-- `Load()` leaves the configuration where it fails.
unfoldable pub load_result : {fl : Floats} → Option RuntimeConfig → Adapter fl → Adapter fl × ℕ
load_result none a = (call config_load a, status_fail)
load_result (some loaded) a = (call config_load (record a { config = loaded }), status_ok)

-- `HandleConfiguration`: `ConfRequest` has four bytes, the operation and the group first.
unfoldable pub handle_configuration :
    (fl : Floats) → ℕ → List ℕ → Services fl → Adapter fl → Adapter fl × ℕ
handle_configuration fl seq p r a =
    if ltb (length p) 4
    then (a, status_bad_len)
    else if read_u8 p 0 == op_get
    then configuration_get fl seq (read_u8 p 1) r a
    else if read_u8 p 0 == op_set
    then configuration_set fl seq (read_u8 p 1) (drop 4 p) r a
    else if read_u8 p 0 == op_save
    then configuration_save fl (read_u8 p 1) r a
    else if read_u8 p 0 == op_load
    then load_result r.loaded a
    else if read_u8 p 0 == op_defaults
    then (call config_restore_defaults (record a { config = r.defaults }), status_ok)
    else (a, status_bad_cmd)
