-- ===== src/Session/Crash.antt =====
-- A session's file, from `start_file` to the one append, file.rs.
mod Started
mod Appended
pub use Started.*
pub use Appended.*
