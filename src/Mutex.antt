-- ===== src/Mutex.antt =====
-- The per-tournament lock: src/services/tournamentMutex.ts.
pub mod Lock
pub mod Client
pub mod Exclusion
pub mod Order
pub mod Duplicates
pub mod TextOrder
pub mod Sorted
pub mod Tests
