-- ===== src/Computer.antt =====
-- The workflows of the computer agent, crates/ughi-computer/src.
mod Tests
pub mod Workflow
pub mod ModelRouter
