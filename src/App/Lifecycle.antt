-- ===== src/App/Lifecycle.antt =====
-- app_state.h and application_policy.h: the lifecycle state machine and the command policy.
use spcd_actuator.Prelude.{ℕ, Bool, ◌||◌, ◌&&◌, leb, sub32, if◌then◌else◌}

-- `app::State`
pub data State : Type 0 where
  init init_failed run driver_fault enter_bootloader : State

unfoldable pub complete_initialization : Bool → State → State
complete_initialization success init = if success then run else init_failed
complete_initialization success s = s

unfoldable pub detect_driver_fault : State → State
detect_driver_fault run = driver_fault
detect_driver_fault s = s

unfoldable pub complete_driver_recovery : Bool → State → State
complete_driver_recovery success driver_fault = if success then run else driver_fault
complete_driver_recovery success s = s

unfoldable pub request_bootloader : State → State
request_bootloader s = enter_bootloader

-- `IsCommandActivity`
abbrev pub is_command_activity : Bool → Bool → Bool
is_command_activity valid_boot_request addressed_protocol_frame =
    valid_boot_request || addressed_protocol_frame

-- `CommandDeadlineExpired`: the elapsed time is an unsigned 32-bit difference.
abbrev pub command_deadline_expired : Bool → ℕ → ℕ → ℕ → Bool
command_deadline_expired motor_active now_us last_receive_us timeout_us =
    motor_active && leb timeout_us (sub32 now_us last_receive_us)
