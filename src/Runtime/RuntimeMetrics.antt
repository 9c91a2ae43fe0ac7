-- ===== src/Runtime/RuntimeMetrics.antt =====
-- `RuntimeMetrics` of crates/ughi-runtime/src/metrics.rs, each method as one step. The snapshot
-- leaves out `memory_total_mb`, a float.
use ughi.Prelude.{ℕ, ◌+◌, ◌-◌, u64}

pub record RuntimeMetrics : Type 0 where
  pub agents_active : ℕ
  pub agents_total_spawned : ℕ
  pub agents_total_completed : ℕ
  pub agents_total_crashed : ℕ
  pub memory_total_bytes : ℕ
  pub last_spawn_latency_us : ℕ
  pub scheduler_ticks : ℕ
  pub scheduler_dequeues : ℕ

unfoldable pub new : RuntimeMetrics
new = record {
  agents_active = 0;
  agents_total_spawned = 0;
  agents_total_completed = 0;
  agents_total_crashed = 0;
  memory_total_bytes = 0;
  last_spawn_latency_us = 0;
  scheduler_ticks = 0;
  scheduler_dequeues = 0;
}

unfoldable pub record_spawn : RuntimeMetrics → ℕ → RuntimeMetrics
record_spawn m latency_us = record m {
  agents_active = u64 (m.agents_active + 1);
  agents_total_spawned = u64 (m.agents_total_spawned + 1);
  last_spawn_latency_us = latency_us;
}

unfoldable pub record_completion : RuntimeMetrics → RuntimeMetrics
record_completion m = record m {
  agents_active = m.agents_active - 1;
  agents_total_completed = u64 (m.agents_total_completed + 1);
}

unfoldable pub record_crash : RuntimeMetrics → RuntimeMetrics
record_crash m = record m {
  agents_active = m.agents_active - 1;
  agents_total_crashed = u64 (m.agents_total_crashed + 1);
}

unfoldable pub record_kill : RuntimeMetrics → RuntimeMetrics
record_kill m = record m { agents_active = m.agents_active - 1 }

unfoldable pub set_memory_total : RuntimeMetrics → ℕ → RuntimeMetrics
set_memory_total m bytes = record m { memory_total_bytes = bytes }

unfoldable pub record_scheduler_tick : RuntimeMetrics → RuntimeMetrics
record_scheduler_tick m = record m { scheduler_ticks = u64 (m.scheduler_ticks + 1) }

unfoldable pub record_scheduler_dequeue : RuntimeMetrics → RuntimeMetrics
record_scheduler_dequeue m = record m { scheduler_dequeues = u64 (m.scheduler_dequeues + 1) }
