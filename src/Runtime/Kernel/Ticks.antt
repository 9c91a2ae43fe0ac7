-- ===== src/Runtime/Kernel/Ticks.antt =====
-- `scheduler_tick` of crates/ughi-runtime/src/runtime.rs.
use ughi.Prelude.{not, Option, none, some, if◌then◌else◌, u64}
use ughi.Prelude.Dict
use ughi.Prelude.Dict.{Dict}
use ughi.Runtime.RuntimeMetrics
use ughi.Runtime.RuntimeMetrics.{RuntimeMetrics}
use ughi.Runtime.Agent.{Agent, is_active, memory_usage}
use ughi.Runtime.BinaryHeap.{BinaryHeap}
use ughi.Runtime.SchedulerEntry.{SchedulerEntry}
use ughi.Runtime.Scheduler
use ughi.Runtime.Scheduler.{Scheduler}
use ughi.Runtime.Kernel.{Kernel}

unfoldable pub count_dequeue : Option SchedulerEntry → RuntimeMetrics → RuntimeMetrics
count_dequeue none m = m
count_dequeue (some entry) m = RuntimeMetrics.record_scheduler_dequeue m

module _ {Q : Type 0} ⦃h : BinaryHeap Q⦄ where
  -- The re-enqueue of `scheduler_tick`; its result is dropped.
  unfoldable pub requeue : Dict Agent → Scheduler Q → Option SchedulerEntry → Scheduler Q
  requeue agents s none = s
  requeue agents s (some entry) = elim (Dict.lookup entry.agent_id agents) [
    | none ↦ s
    | some agent ↦
        if is_active agent
        then (Scheduler.enqueue s entry.agent_id entry.effective_priority).0
        else s
  ]

  unfoldable pub scheduler_tick : Kernel Q → Kernel Q
  unfolding requeue count_dequeue
  scheduler_tick k =
      if not k.running
      then k
      else (let (s, entry) = Scheduler.dequeue (Scheduler.tick k.scheduler) in
          let m = count_dequeue entry (RuntimeMetrics.record_scheduler_tick k.metrics) in
          record k {
            scheduler = requeue k.agents s entry;
            metrics = RuntimeMetrics.set_memory_total m (u64 (Dict.total memory_usage k.agents));
          })
