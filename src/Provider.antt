-- ===== src/Provider.antt =====
-- The providers of src/provider.
pub mod Config
pub mod Router
pub mod Tests
