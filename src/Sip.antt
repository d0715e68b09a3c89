-- ===== src/Sip.antt =====
-- The signalling parts of src/sip.
pub mod Timer
pub mod Tests
