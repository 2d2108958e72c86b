-- ===== src/App.antt =====
-- fw/app: the top-level lifecycle and the main loop (app_state.h, application_policy.h,
-- application_ports.h, application.cc).
pub mod Lifecycle
pub mod Loop
