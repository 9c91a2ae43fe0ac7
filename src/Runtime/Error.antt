-- ===== src/Runtime/Error.antt =====
-- crates/ughi-runtime/src/error.rs
use ughi.Prelude.{ℕ, String}

pub data RuntimeError : Type 0 where
  agent_limit_exceeded : ℕ → RuntimeError
  agent_not_found : String → RuntimeError
  memory_budget_exceeded : ℕ → ℕ → RuntimeError
  agent_crashed : String → String → RuntimeError
  scheduler_full : ℕ → RuntimeError
  spawn_timeout : ℕ → RuntimeError
  invalid_transition : String → String → String → RuntimeError
  agent_already_exists : String → RuntimeError
  shutting_down : RuntimeError
  channel_error : String → RuntimeError
