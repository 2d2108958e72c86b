-- ===== src/Control.antt =====
-- The controllers of fw/math whose limits are modelled.
pub mod Pid
pub mod Mit
pub mod Servo
pub mod Foc
pub mod Bounds
