-- ===== src/Lib.antt =====
-- Verification of the firmware of the xtellar motor driver (fw/): the application's lifecycle, the
-- commands over CAN, the motor control with its controllers, the calibration, the settings, the
-- snapshot service and the CAN bootloader.
--
-- Parts and files.
-- * App models fw/app: App/Lifecycle is the lifecycle state machine and the command policy
--   (inc/application_policy.h), App/Loop is `Application` (src/application.cc), one function for each
--   of its member functions. The services that it calls are interfaces: what they answer in one pass
--   of the loop is the record `Answers`, and the calls made on them are a history, newest first.
-- * Snapshot models fw/middleware/inc/middleware/snapshot/snapshot_service.h. The control interrupt
--   calls `push_isr`, the main loop `arm`, `abort` and `poll_send`. Whether the link takes a frame is
--   a list of answers.
-- * Boot models fw/bootloader: Boot/Varuint, Boot/Hex and Boot/Text the formats and buffers of
--   src/BL_CommandServer.cc and inc/boot_mjlib.h, Boot/Flash the flash writer (src/BL_FlashWriter.cc),
--   Boot/Server the command server, Boot/Start the boot state machine (src/bootloader.cc) and the
--   request of the application (src/enter_bootloader.cc).
-- * Link models the commands over CAN: Link/Protocol the fields and tests of
--   fw/protocol/inc/protocol/xt_can.h and binary_link_policy.h, Link/Commands what the adapter hands
--   to the services, Link/Adapter, Link/Servo, Link/Calibration and Link/Configuration the handlers of
--   fw/middleware/src/communication/can_command_adapter.cc, Link/Dispatch `HandleFrame` of
--   binary_link.cc, `HandleCommand` and `Poll`. What the services answer is the record `Services`.
--   A snapshot command arms the service of Snapshot, and the poll of Link is the command poll that App
--   calls.
-- * Protection models fw/math/inc/math/protection/safety_monitor.h.
-- * Motor models fw/middleware/src/control/motor_control_service.cc: Motor/Parts the state with the
--   switches of the controllers and calibration sessions, Motor/Start and Motor/Calibrate the starts,
--   Motor/Isr the interrupt's step, which evaluates the monitor of Protection and fills the snapshot
--   of Snapshot. What the encoder, the controllers, the sessions and the board answer during one
--   operation is the record `Readings`, and the calls into them are a history, newest first. An
--   operation is one step, and the interrupt comes between operations.
-- * Store models fw/middleware/inc/middleware/persistence/runtime_config_store.h: Store/Record the
--   packed record, its CRC, `Load` and `Save`; the vendor's flash driver is the record `Driver`.
-- * Calibration models the persistent calibration: Calibration/Record and Calibration/Store are
--   fw/middleware/inc/middleware/persistence/motor_calibration_store.h with the records of the older
--   firmware, Calibration/Encoder the calibration that encoder_service.h keeps, and
--   Calibration/Manager calibration_manager.h, which writes what is pending over what was stored.
-- * Identify models the sweeps of fw/math/inc/math/calibration/r_ident.h and bemf_ident.h:
--   Identify/Sweep what the two classes share, Identify/Kinds what differs. Identify/Cogging models
--   cogging.h: Identify/Cogging/Gaps its bins, Identify/Cogging/Session its phases.
-- * Control models the controllers of fw/math: Control/Pid pi.h and pid.h, Control/Mit mit_mode.h,
--   Control/Servo servo_mode.h with its trajectory, Control/Foc the transforms, the open-loop modulator
--   and the current controller of fw/math/inc/math/foc.
-- * Encoder models the way of the angle: Encoder/Sensor fw/device/inc/device/ma600.h, Encoder/Tables the
--   periodic tables, Encoder/Pll encoder_pll.h, Encoder/Service the samples of encoder_service.h around
--   the calibration that Calibration/Encoder keeps.
-- * Runtime models fw/board/xtellar_stm32g4/runtime_config_service.cc: the settings and their limits,
--   Runtime/Defaults the constants of board_config.h, Runtime/Apply the options that `Apply` hands to
--   the encoder, the protection and the controllers of Control, Runtime/Service the service, with the
--   ends of the calibration sessions (calibration_manager.h) and the bus voltage that
--   motor_control_service.cc gives to the controllers.
-- * Hal/PhasePwm models fw/HAL/src/phase_pwm.cc, Device/GateDriver fw/device/src/drv8353s.cc around a
--   chip that is the record `Chip`, of which only the words that the start writes are assumed to be
--   kept.
-- * Core/Pool models fw/core/inc/core/memory/pool.h.
-- * Can/Dlc models the length codes of fw/bootloader/src/BL_CanDriver.cc.
-- * Prelude has the shared names, Boolean tests, lists over native numbers and machine words; Floats
--   is the arithmetic of `float`, a parameter.
--
-- Representation. Unsigned words are native numbers with their wrap-around written out; signed words
-- are bit patterns. Arrays and buffers are lists. The eight bytes of the flash writer's 64-bit shadow
-- are a list, and its mask is a list of flags. The flash controller is a parameter (`FlashHw`); all
-- that is assumed of it is that it changes nothing outside the page or the doubleword it is given, and
-- of a store to RAM that it changes nothing outside its word. A float that is not a number is neither
-- below nor above another: where a theorem says that a value is neither below nor above its limits, it
-- may be no number.
--
-- Fuel. A varuint takes at most five rounds, since a 32-bit value is 0 after five shifts by 7. The
-- loop of `PollSend` has its own bound of 16 frames, that of `Poll` 8 frames, and that of the store's
-- `Save` 17 doublewords, in the calibration's 201; the gaps of the cogging table take 4 passes, of which
-- two are enough. All other loops recur on lists or counters.
--
-- Not modelled: registers that are only written once, pins, clocks, LEDs and delays; the inductance
-- and encoder identifications; the drivers of fw/HAL but for the PWM; the telemetry text of
-- the gate driver; the telemetry service behind the command adapter, which appears by its answers; the
-- host tools.
pub mod App
pub mod Boot
pub mod Calibration
pub mod Can
pub mod Control
pub mod Core
pub mod Device
pub mod Encoder
pub mod Floats
pub mod Hal
pub mod Identify
pub mod Link
pub mod Motor
pub mod Prelude
pub mod Protection
pub mod Runtime
pub mod Snapshot
pub mod Store
