-- ===== src/Mutation.antt =====
-- The gate that every mutation passes: src/modules/factory/mutation-authorization.service.ts and
-- the helpers that it calls.
pub mod Target
pub mod Located
pub mod Completed
pub mod Window
pub mod Services
pub mod Scope
pub mod Gate
pub mod Served
pub mod Coverage
pub mod Permitted
pub mod Admission
pub mod Tests
