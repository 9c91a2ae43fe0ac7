-- ===== src/Sandbox.antt =====
-- The zero-trust sandbox of crates/ughi-wasm/src.
pub mod Error
pub mod CapabilityManager
pub mod ViolationTracker
pub mod SkillRegistry
pub mod ResourceTracker
pub mod SandboxEngine
pub mod Tests
