-- ===== src/Device.antt =====
-- The drivers of fw/device that are modelled but for the encoder chip, which is in Encoder.
pub mod GateDriver
