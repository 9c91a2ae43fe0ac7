-- ===== src/Runtime/Tests.antt =====
-- Agents, their memory, the scheduler and the governor on concrete input.
use ughi.Prelude.{
  ℕ, ◌+◌, ◌≡◌, refl, String, Bool, some, List, [], ◌∷◌, arith, unit, u64, All, replicate, ◌++◌,
}
use ughi.Prelude.Dict
use ughi.Runtime.AgentState.{AgentPriority, high, low}
use ughi.Runtime.SchedulerEntry.{SchedulerEntry}
use ughi.Runtime.BinaryHeap.{BinaryHeap}
use ughi.Runtime.ListHeap.{list_heap, pop_list}
use ughi.Runtime.Scheduler.{Scheduler, new, dequeue}
use ughi.Runtime.Scheduler.Order.{queued, NotBefore, dequeue_first}
use ughi.Runtime.Scheduler.Starvation.{
  Call, enqueues, dequeues, removes, ticks, is_waiting, run, no_starvation,
}
use ughi.Runtime.ResourceGovernor.{ResourceGovernor, HibernatedState, with_limit, hibernate, resume}
use ughi.Runtime.ResourceGovernor.Limits.{
  IsWithin, registers, leaves, hibernates, resumes, acts, acts-with_limit, resume-hibernate,
}

instance abbrev heap : BinaryHeap (List SchedulerEntry)
heap = list_heap

-- Two entries: "b" waits longer, "a" has the higher priority.
abbrev entry_of : String → AgentPriority → ℕ → SchedulerEntry
entry_of id p n = record {
  agent_id = id;
  effective_priority = p;
  base_priority = p;
  enqueued_at_tick = 0;
  wait_ticks = n;
}

abbrev queue_of : List SchedulerEntry → Scheduler (List SchedulerEntry)
queue_of es = record {
  queue = es;
  capacity = 3;
  current_tick = 3;
  total_scheduled = 0;
  total_ticks = 3;
}

abbrev two_waiting : Scheduler (List SchedulerEntry)
two_waiting = queue_of (entry_of "b" low 5 ∷ entry_of "a" high 0 ∷ [])

abbrev one_left : Scheduler (List SchedulerEntry)
one_left = record (queue_of (entry_of "b" low 5 ∷ [])) { total_scheduled = 1 }

dequeue_first_example :
    All (NotBefore (entry_of "a" high 0)) (entry_of "b" low 5 ∷ entry_of "a" high 0 ∷ [])
    × ((p : SchedulerEntry → Bool)
        → queued p two_waiting ≡ unit (p (entry_of "a" high 0)) + queued p one_left)
    × (1 ≡ u64 (0 + 1))
unfolding dequeue pop_list
dequeue_first_example = dequeue_first two_waiting one_left (entry_of "a" high 0) refl

abbrev before : List Call
before = enqueues "b" low ∷ enqueues "a" high ∷ ticks ∷ []

-- Others come and go while "b" waits.
abbrev after : List Call
after =
    enqueues "c" high
    ∷ dequeues
    ∷ (replicate 12 ticks ++ (removes "a" ∷ dequeues ∷ enqueues "d" low ∷ replicate 12 ticks))

no_starvation_example :
    queued (is_waiting "b") (run {Q = List SchedulerEntry} (run (new 3) before) after) ≡ 0
no_starvation_example = no_starvation heap 3 before after "b" refl (omega arith)

abbrev sleeper : HibernatedState
sleeper = record {
  agent_id = "a";
  goal = "sum";
  expert_persona_id = "x";
  priority = 2;
  transition_count = 4;
  memory_keys = [];
  capabilities = [];
  hibernated_at_ms = 9;
  total_active_ms = 5;
}

abbrev governor : ResourceGovernor
governor = record {
  max_concurrent = 1;
  active_count = 1;
  total_created = 1;
  hibernated = [];
  total_hibernations = 0;
  total_resumes = 0;
}

acts-with_limit_example :
    IsWithin (acts (with_limit 1) (registers ∷ hibernates sleeper ∷ resumes "a" ∷ leaves ∷ []))
acts-with_limit_example =
    acts-with_limit 1 (registers ∷ hibernates sleeper ∷ resumes "a" ∷ leaves ∷ []) (omega arith)

resume-hibernate_example :
    ((resume (hibernate governor sleeper) "a").1 ≡ some sleeper)
    × ((resume (hibernate governor sleeper) "a").0.active_count ≡ 1)
    × ((j : String)
        → Dict.lookup j (resume (hibernate governor sleeper) "a").0.hibernated
          ≡ Dict.lookup j governor.hibernated)
unfolding Dict.lookup
resume-hibernate_example =
    resume-hibernate governor sleeper
      (record { is_word = omega arith; within = omega arith; is_map = tt }) (omega arith) refl
