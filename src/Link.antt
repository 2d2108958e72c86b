-- ===== src/Link.antt =====
-- Commands over CAN: fw/protocol and fw/middleware/src/communication.
pub mod Protocol
pub mod Commands
pub mod Adapter
pub mod Servo
pub mod Calibration
pub mod Configuration
pub mod Dispatch
pub mod Control
pub mod Replies
pub mod Settings
pub mod Lengths
mod Tests
