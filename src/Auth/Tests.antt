-- ===== src/Auth/Tests.antt =====
-- The authentication crate at concrete inputs.
pub mod Samples
pub mod Records
mod Steps
