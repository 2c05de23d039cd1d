-- ===== src/Command.antt =====
-- Durable commands: src/storage/postgres/commandReceipts.ts and commandTransaction.ts.
pub mod Receipts
pub mod Tests
