-- ===== src/Core.antt =====
-- The utilities of fw/core that are modelled.
pub mod Pool
