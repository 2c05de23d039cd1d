-- ===== src/Access.antt =====
-- Who may see, change and delete a tournament: modules/factory/helpers and the user context.
pub mod Context
pub mod Tournament
pub mod Creator
pub mod Provider
pub mod Associated
pub mod Session
pub mod Laws
pub mod Assigned
pub mod Calendar
pub mod Tests
