-- ===== src/Session.antt =====
-- The session log, crates/harness-session-log.
pub mod Format
pub mod Projection
pub mod Lines
pub mod RoundTrip
pub mod Errors
pub mod List
pub mod Files
pub mod Writer
pub mod Crash
pub mod Inspect
pub mod Rollback
pub mod Sources
pub mod Tests
