-- ===== src/Encoder.antt =====
-- The encoder's way from the sensor to the controllers: fw/math/inc/math/servo_mode/encoder_pll.h, the
-- tables of fw/math/inc/math, and the samples of
-- fw/middleware/inc/middleware/encoder/encoder_service.h.
pub mod Pll
pub mod Tables
pub mod Service
pub mod Sensor
pub mod Transfers
pub mod Tests
