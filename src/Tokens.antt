-- ===== src/Tokens.antt =====
-- The refresh tokens that keep a session.
pub mod Refresh
mod Tests
