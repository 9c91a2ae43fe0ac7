-- ===== src/Sandbox/Error.antt =====
-- crates/ughi-wasm/src/error.rs. An `anyhow::Error` is its message.
use ughi.Prelude.{ℕ, String}

pub data SandboxError : Type 0 where
  engine_init_failed compilation_failed : String → SandboxError
  capability_denied capability_expired : String → String → SandboxError
  skill_not_registered : String → SandboxError
  resource_exceeded : String → ℕ → ℕ → SandboxError
  execution_trapped : String → SandboxError
  execution_timeout : ℕ → ℕ → SandboxError
  security_violation : String → String → SandboxError
  agent_quarantined : String → ℕ → SandboxError
  wasmtime : String → SandboxError
