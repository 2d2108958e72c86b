-- ===== src/Motor.antt =====
-- fw/middleware/src/control/motor_control_service.cc: the sessions of the motor, from the command that
-- starts them to the control interrupt that drives them.
pub mod Parts
pub mod Start
pub mod Calibrate
pub mod Isr
pub mod Moves
pub mod IsrMoves
pub mod Runs
pub mod Guard
mod Tests
