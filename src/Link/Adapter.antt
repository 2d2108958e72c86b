-- ===== src/Link/Adapter.antt =====
-- can_command_adapter.cc: the adapter's state, the calls that it makes and the starts of a motor mode.
-- The pointers to the other components are never null here: the board passes all of them.
use spcd_actuator.Prelude.{ℕ, Bool, List, ◌∷◌, if◌then◌else◌}
use spcd_actuator.Floats.{Floats}
use spcd_actuator.Snapshot.{Service}
use spcd_actuator.Link.Protocol.{status_ok, status_bad_cmd, status_not_run, status_fail}
use spcd_actuator.Link.Commands.{
  Call, RuntimeConfig, Services, Result, ok, failed, not_ready, invalid_argument, ServoCommand,
  MitCommand, start_servo, start_current, start_mit,
}

-- The members of `CanCommandAdapter` that change, the snapshot service and the configuration behind
-- its pointers, and the calls made so far, newest first.
pub record Adapter (fl : Floats) : Type 0 where
  pub control_allowed : Bool
  pub driver_fault : Bool
  pub snapshot : Service
  pub config : RuntimeConfig
  pub calls : List (Call fl)

-- `node_id()`, `nominal_pwm_hz_` and `motor_name_`, which never change.
pub record Board : Type 0 where
  pub node_id : ℕ
  pub nominal_pwm_hz : ℕ
  pub motor_name : List ℕ

abbrev pub call : {fl : Floats} → Call fl → Adapter fl → Adapter fl
call c a = record a { calls = c ∷ a.calls }

-- `ToProtocolStatus`
unfoldable pub to_protocol_status : Result → ℕ
to_protocol_status ok = status_ok
to_protocol_status not_ready = status_not_run
to_protocol_status invalid_argument = status_bad_cmd
to_protocol_status failed = status_fail

-- `StartServo`, `StartCurrent`, `StartMit`
unfoldable pub do_start_servo :
    (fl : Floats) → ServoCommand fl → Services fl → Adapter fl → Adapter fl × ℕ
do_start_servo fl command r a =
    if a.control_allowed
    then (call (start_servo command) a, to_protocol_status r.motor_result)
    else (a, status_not_run)

unfoldable pub do_start_current :
    (fl : Floats) → fl.F → fl.F → Services fl → Adapter fl → Adapter fl × ℕ
do_start_current fl id_A iq_A r a =
    if a.control_allowed
    then (call (start_current id_A iq_A) a, to_protocol_status r.motor_result)
    else (a, status_not_run)

unfoldable pub do_start_mit :
    (fl : Floats) → MitCommand fl → Services fl → Adapter fl → Adapter fl × ℕ
do_start_mit fl command r a =
    if a.control_allowed
    then (call (start_mit command) a, to_protocol_status r.motor_result)
    else (a, status_not_run)
