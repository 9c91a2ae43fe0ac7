-- ===== src/Runtime/SchedulerEntry.antt =====
-- `SchedulerEntry` and its order, of crates/ughi-runtime/src/scheduler.rs.
use ughi.Prelude.{ℕ, String, Bool, true, false, compare, Ordering}
use ughi.Runtime.AgentState.{AgentPriority, rank}

pub record SchedulerEntry : Type 0 where
  pub agent_id : String
  pub effective_priority : AgentPriority
  pub base_priority : AgentPriority
  pub enqueued_at_tick : ℕ
  pub wait_ticks : ℕ

unfoldable pub new : String → AgentPriority → ℕ → SchedulerEntry
new agent_id priority tick = record {
  agent_id = agent_id;
  effective_priority = priority;
  base_priority = priority;
  enqueued_at_tick = tick;
  wait_ticks = 0;
}

-- `Ordering::then_with`
abbrev pub then_with : Ordering → Ordering → Ordering
then_with Ordering.eq o = o
then_with Ordering.lt o = Ordering.lt
then_with Ordering.gt o = Ordering.gt

-- The higher priority is the greater, and within one priority the older entry.
abbrev pub cmp : SchedulerEntry → SchedulerEntry → Ordering
cmp self other =
    then_with (compare (rank self.effective_priority) (rank other.effective_priority))
      (compare other.enqueued_at_tick self.enqueued_at_tick)

abbrev pub is_less : SchedulerEntry → SchedulerEntry → Bool
is_less self other = elim (cmp self other) [ Ordering.lt ↦ true | _ ↦ false ]
