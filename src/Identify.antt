-- ===== src/Identify.antt =====
-- The identification of the motor's parameters: the sessions that sweep over several points.
pub mod Cogging
pub mod Sweep
pub mod Kinds
pub mod Ending
mod Tests
