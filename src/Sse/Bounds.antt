-- ===== src/Sse/Bounds.antt =====
-- The bounds of what the decoder of sse.rs holds and returns.
mod Texts
mod Steps
pub use Texts.*
pub use Steps.*
