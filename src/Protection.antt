-- ===== src/Protection.antt =====
-- The trip policy of the power stage: fw/math/inc/math/protection/safety_monitor.h.
pub mod Monitor
pub mod Trips
mod Tests
