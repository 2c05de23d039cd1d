-- ===== src/Integrity.antt =====
-- The draw-integrity scan behind the execution queue: executionQueueIntegrity.ts and
-- drawIntegrityFindings.ts of src/modules/factory/helpers.
pub mod Issues
pub mod Findings
pub mod Memory
pub mod Scan
pub mod Schedule
pub mod Gate
pub mod Notices
pub mod Tests
