-- ===== src/Boot.antt =====
-- fw/bootloader: the CAN bootloader.
pub mod Varuint
pub mod Hex
pub mod Text
pub mod Flash
pub mod Server
pub mod Start
mod Tests
