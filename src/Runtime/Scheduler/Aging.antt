-- ===== src/Runtime/Scheduler/Aging.antt =====
-- Starvation prevention: what a tick makes of an entry.
use ughi.Prelude.{◌+◌, ◌/◌, ◌%◌, ◌≤◌, ◌≡◌, Bool, min, ltb, arith}
use ughi.Runtime.AgentState.{AgentPriority, rank}
use ughi.Runtime.SchedulerEntry.{SchedulerEntry}
use ughi.Runtime.Scheduler.{age, boost}

rank-boost : (p : AgentPriority) → rank (boost p) ≡ min 4 (rank p + 1)
unfolding boost
rank-boost p = ground arith

pub rank-le : (p : AgentPriority) → rank p ≤ 4
rank-le p = ground arith

-- One tick counts one wait; the sixth wait raises the priority by one, up to `critical`, and
-- starts the count again. Nothing else of the entry changes.
pub age_step :
    (e : SchedulerEntry)
    → e.wait_ticks ≤ 5
    → ((age e).wait_ticks ≡ (e.wait_ticks + 1) % 6)
      × (rank (age e).effective_priority
          ≡ min 4 (rank e.effective_priority + (e.wait_ticks + 1) / 6))
      × ((age e).agent_id ≡ e.agent_id)
      × ((age e).base_priority ≡ e.base_priority)
      × ((age e).enqueued_at_tick ≡ e.enqueued_at_tick)
unfolding age
age_step e h = ground (arith, rank-boost e.effective_priority, rank-le e.effective_priority)

-- Of lower priority than `critical`.
abbrev pub is_below_critical : SchedulerEntry → Bool
is_below_critical e = ltb (rank e.effective_priority) 4

abbrev pub has_overwaited : SchedulerEntry → Bool
has_overwaited e = ltb 5 e.wait_ticks
