-- ===== src/Calibration.antt =====
-- The persistent calibration: its store, the encoder's calibration state and the manager that applies
-- and persists the results.
pub mod Record
pub mod Store
pub mod Encoder
pub mod Manager
pub mod Reboot
pub mod Upload
mod Tests
