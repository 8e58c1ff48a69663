-- ===== src/Sse.antt =====
-- The decoder of server-sent events, crates/openai-codex-model/src/sse.rs.
pub mod State
pub mod Dispatch
pub mod Lines
pub mod Loop
pub mod Splits
pub mod Bounds
pub mod Decode
pub mod Frames
pub mod Tests
