-- ===== src/Can.antt =====
-- The lengths of CAN-FD frames: fw/bootloader/src/BL_CanDriver.cc.
pub mod Dlc
mod Tests
