-- ===== src/Store.antt =====
-- Settings in flash: fw/middleware/inc/middleware/persistence.
pub mod Record
pub mod Layout
pub mod RoundTrip
mod Tests
