-- ===== src/Runtime/Scheduler.antt =====
-- `Scheduler` of crates/ughi-runtime/src/scheduler.rs, over any binary heap.
pub mod Order
pub mod Aging
pub mod Invariant
pub mod Starvation
use ughi.Prelude.{
  ℕ, ◌+◌, String, str_eq, Bool, not, map, Option, none, some, Result, ok, err, ltb, leb, ◌==◌,
  if◌then◌else◌, u64, keep,
}
use ughi.Runtime.Error.{RuntimeError, scheduler_full}
use ughi.Runtime.AgentState.{AgentPriority, background, low, normal, high, critical}
use ughi.Runtime.SchedulerEntry
use ughi.Runtime.SchedulerEntry.{SchedulerEntry}
use ughi.Runtime.BinaryHeap
use ughi.Runtime.BinaryHeap.{BinaryHeap}

abbrev pub starvation_threshold : ℕ
starvation_threshold = 5

pub record Scheduler (Q : Type 0) : Type 0 where
  pub queue : Q
  pub capacity : ℕ
  pub current_tick : ℕ
  pub total_scheduled : ℕ
  pub total_ticks : ℕ

-- The `match` of `tick`.
unfoldable pub boost : AgentPriority → AgentPriority
boost background = low
boost low = normal
boost normal = high
boost high = critical
boost critical = critical

-- The body of the `for` loop of `tick`.
unfoldable pub age : SchedulerEntry → SchedulerEntry
unfolding boost
age entry =
    let waited = u64 (entry.wait_ticks + 1) in
    if ltb starvation_threshold waited
    then record entry { effective_priority = boost entry.effective_priority; wait_ticks = 0 }
    else record entry { wait_ticks = waited }

-- The test of the `filter` of `remove`.
abbrev pub is_other : String → SchedulerEntry → Bool
is_other agent_id e = not (str_eq e.agent_id agent_id)

module _ {Q : Type 0} ⦃h : BinaryHeap Q⦄ where
  unfoldable pub new : ℕ → Scheduler Q
  new capacity = record {
    queue = h.empty;
    capacity = capacity;
    current_tick = 0;
    total_scheduled = 0;
    total_ticks = 0;
  }

  unfoldable pub queue_len : Scheduler Q → ℕ
  queue_len s = BinaryHeap.len s.queue

  unfoldable pub enqueue :
      Scheduler Q → String → AgentPriority → Scheduler Q × Result RuntimeError (Unit {0})
  unfolding SchedulerEntry.new
  enqueue s agent_id priority =
      if leb s.capacity (BinaryHeap.len s.queue) then (s, err (scheduler_full s.capacity)) else (
        record s { queue = h.push (SchedulerEntry.new agent_id priority s.current_tick) s.queue },
        ok tt,
      )

  unfoldable pub dequeue : Scheduler Q → Scheduler Q × Option SchedulerEntry
  dequeue s = elim (h.pop s.queue) [
    | none ↦ (s, none)
    | some (e, rest) ↦
        (record s { queue = rest; total_scheduled = u64 (s.total_scheduled + 1) }, some e)
  ]

  unfoldable pub tick : Scheduler Q → Scheduler Q
  tick s =
      let counted = record s {
        current_tick = u64 (s.current_tick + 1);
        total_ticks = u64 (s.total_ticks + 1);
      } in
      if BinaryHeap.len s.queue == 0
      then counted
      else record counted { queue = h.from_vec (map age (h.to_vec s.queue)) }

  unfoldable pub remove : Scheduler Q → String → Scheduler Q × Bool
  remove s agent_id =
      let before = BinaryHeap.len s.queue in
      let entries = keep (is_other agent_id) (h.to_vec s.queue) in
      let after = h.from_vec entries in
      (record s { queue = after }, ltb (BinaryHeap.len after) before)

  unfoldable pub peek : Scheduler Q → Option SchedulerEntry
  peek s = BinaryHeap.peek s.queue
