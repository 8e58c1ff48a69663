-- ===== src/Auth.antt =====
-- The authentication crate, crates/openai-codex-auth/src.
pub mod Credential
pub mod Errors
pub mod Callback
pub mod Login
pub mod RefreshLock
pub mod Refresh
pub mod Exchange
pub mod Run
pub mod Flow
pub mod Tests
