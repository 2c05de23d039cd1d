-- ===== src/Grants.antt =====
-- The scoped grants of a tournament: what may be written, and who may write it.
pub mod Validation
pub mod Service
mod Tests
