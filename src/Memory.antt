-- ===== src/Memory.antt =====
-- The memory of the agents, crates/ughi-memory/src.
mod Tests
pub mod Types
pub mod ShortTerm
pub mod Namespace
pub mod MemoryStore
