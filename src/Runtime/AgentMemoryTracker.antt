-- ===== src/Runtime/AgentMemoryTracker.antt =====
-- `AgentMemoryTracker` of crates/ughi-runtime/src/memory.rs. Each method is one step: the runtime
-- calls it under its mutex. `usage_percent`, a float, is left out.
pub mod Budget
use ughi.Prelude.{ℕ, ◌+◌, ◌-◌, max, Bool, Result, ok, err, ltb, leb, if◌then◌else◌, u64, sub_u64}
use ughi.Runtime.Error.{RuntimeError, memory_budget_exceeded}

pub record AgentMemoryTracker : Type 0 where
  pub current_bytes : ℕ
  pub peak_bytes : ℕ
  pub limit_bytes : ℕ

unfoldable pub new : ℕ → AgentMemoryTracker
new limit = record { current_bytes = 0; peak_bytes = 0; limit_bytes = limit }

-- `fetch_add`, then `fetch_sub` on the refused branch, then `fetch_max`.
unfoldable pub allocate :
    AgentMemoryTracker → ℕ → AgentMemoryTracker × Result RuntimeError (Unit {0})
allocate t size =
    let prev = t.current_bytes in
    let new_total = u64 (prev + size) in
    let added = record t { current_bytes = u64 (prev + size) } in
    if ltb t.limit_bytes new_total
    then (
      record added { current_bytes = sub_u64 added.current_bytes size },
      err (memory_budget_exceeded new_total t.limit_bytes),
    )
    else (record added { peak_bytes = max t.peak_bytes new_total }, ok tt)

-- `saturating_sub`
unfoldable pub deallocate : AgentMemoryTracker → ℕ → AgentMemoryTracker
deallocate t size = record t { current_bytes = t.current_bytes - size }

unfoldable pub is_within_budget : AgentMemoryTracker → Bool
is_within_budget t = leb t.current_bytes t.limit_bytes

unfoldable pub reset : AgentMemoryTracker → AgentMemoryTracker
reset t = record t { current_bytes = 0; peak_bytes = 0 }
