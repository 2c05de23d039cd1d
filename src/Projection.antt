-- ===== src/Projection.antt =====
-- The read model: what a mutation changes in it.
pub mod Intents
pub mod Recorders
pub mod Rows
pub mod Group
pub mod Build
pub mod Scope
mod Tests
