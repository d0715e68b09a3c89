-- ===== src/Session.antt =====
-- Calls and their sessions: src/session/state.rs and src/session/manager.rs.
pub mod State
pub mod Lifecycle
pub mod Store
pub mod Manager
pub mod Tests
