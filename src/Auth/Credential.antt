-- ===== src/Auth/Credential.antt =====
-- Credential records, credential.rs.
pub mod Claims
pub mod Record
pub mod Usable
pub mod Stored
pub mod Display
