-- ===== src/Session/RoundTrip.antt =====
-- The lines of format.rs, read by projection.rs.
mod Parse
mod Project
pub use Parse.*
pub use Project.*
