-- ===== src/Cli.antt =====
-- The command line, crates/harness-cli/src/main.rs.
pub mod Command
pub mod Render
pub mod Run
pub mod Show
pub mod Actions
pub mod Help
pub mod Application
mod Tests
