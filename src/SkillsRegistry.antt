-- ===== src/SkillsRegistry.antt =====
-- The registry of downloaded skills, crates/ughi-skills-registry/src.
mod Tests
pub mod Sha256
pub mod IntegrityVerifier
pub mod Catalog
pub mod SkillsShClient
