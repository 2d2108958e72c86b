-- ===== src/Hal.antt =====
-- The drivers of fw/HAL whose state and limits are modelled.
pub mod PhasePwm
