-- ===== src/Identify/Cogging.antt =====
-- fw/math/inc/math/calibration/cogging.h: `CoggingCal`, which turns the rotor forward and back and
-- averages the torque current by angle.
pub mod Gaps
pub mod Session
mod Bins
mod Passes
mod Count
mod Sources
mod Means
pub mod Full
pub mod Verdict
pub mod Flag
mod Tests
