-- ===== src/Runtime/SystemMemoryTracker.antt =====
-- `SystemMemoryTracker` of crates/ughi-runtime/src/memory.rs, each method as one step.
use ughi.Prelude.{ℕ, ◌+◌, ◌-◌, ◌/◌, ◌==◌, if◌then◌else◌, u64}

pub record SystemMemoryTracker : Type 0 where
  pub total_bytes : ℕ
  pub agent_count : ℕ

unfoldable pub new : SystemMemoryTracker
new = record { total_bytes = 0; agent_count = 0 }

unfoldable pub register_agent : SystemMemoryTracker → ℕ → SystemMemoryTracker
register_agent t initial = record {
  total_bytes = u64 (t.total_bytes + initial);
  agent_count = u64 (t.agent_count + 1);
}

unfoldable pub unregister_agent : SystemMemoryTracker → ℕ → SystemMemoryTracker
unregister_agent t bytes = record {
  total_bytes = t.total_bytes - bytes;
  agent_count = t.agent_count - 1;
}

unfoldable pub add_bytes : SystemMemoryTracker → ℕ → SystemMemoryTracker
add_bytes t bytes = record t { total_bytes = u64 (t.total_bytes + bytes) }

unfoldable pub sub_bytes : SystemMemoryTracker → ℕ → SystemMemoryTracker
sub_bytes t bytes = record t { total_bytes = t.total_bytes - bytes }

unfoldable pub avg_usage_per_agent : SystemMemoryTracker → ℕ
avg_usage_per_agent t = if t.agent_count == 0 then 0 else t.total_bytes / t.agent_count
