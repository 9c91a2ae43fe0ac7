-- ===== src/Runtime/Kernel/Tests.antt =====
-- The kernel on concrete runs, with a list as its heap.
use ughi.Prelude.{
  ℕ, ◌+◌, ◌≤◌, ◌≡◌, refl, String, true, none, some, ok, err, ◌⊎◌, List, [], ◌∷◌, arith,
}
use ughi.Prelude.Dict
use ughi.Prelude.Dict.{Dict}
use ughi.Runtime.Error.{RuntimeError}
use ughi.Runtime.AgentState.{AgentState, spawned, planning, crashed, high, normal}
use ughi.Runtime.Agent
use ughi.Runtime.Agent.{
  Agent, from_agent, new_config, is_active, memory_usage, default_memory_model,
}
use ughi.Runtime.RuntimeMetrics
use ughi.Runtime.SchedulerEntry.{SchedulerEntry}
use ughi.Runtime.BinaryHeap
use ughi.Runtime.BinaryHeap.{BinaryHeap}
use ughi.Runtime.ListHeap.{list_heap, pop_list}
use ughi.Runtime.Scheduler
use ughi.Runtime.Scheduler.{Scheduler, queue_len, age}
use ughi.Runtime.Scheduler.Order.{queued}
use ughi.Runtime.Kernel.{Kernel, RuntimeConfig, with_config, spawn}
use ughi.Runtime.Kernel.Transitions.{transition_agent, recover_agent}
use ughi.Runtime.Kernel.Ticks.{scheduler_tick}
use ughi.Runtime.Kernel.RunAgent.{run_agent}
use ughi.Runtime.Kernel.Invariant.{IsValid}
use ughi.Runtime.Kernel.Calls.{spawns, ticks, allocates, step, run, reachable-IsValid}
use ughi.Runtime.Kernel.Spawning.{IsOpen, IsNewborn, Blocked, Gains, spawn_outcome}
use ughi.Runtime.Kernel.OneShot.{finished, run_agent_completes}
use ughi.Runtime.Kernel.Rounds.{is_of, transition_agent-lost}
use ughi.Runtime.Kernel.Recovery.{Restarted, recover_agent_outcome}
use ughi.Runtime.Kernel.Accounting.{used, IsAccounted}
use ughi.Runtime.Kernel.Accounting.Memory.{step-IsAccounted, recover_agent-leaks}

instance abbrev heap : BinaryHeap (List SchedulerEntry)
heap = list_heap

abbrev pair_config : RuntimeConfig
pair_config = record { max_agents = 2; scheduler_tick_ms = 100; fair_scheduling = true }

abbrev agent_in : String → AgentState → ℕ → Agent
agent_in id s bytes = record {
  id = id;
  goal = "sum";
  parent_id = none;
  state = s;
  priority = normal;
  memory_model = default_memory_model;
  memory_tracker = record { current_bytes = bytes; peak_bytes = bytes; limit_bytes = 100 };
  capabilities = [];
  created_at = 0;
  last_active = 0;
  transition_count = 1;
}

abbrev entry_of : String → SchedulerEntry
entry_of id = record {
  agent_id = id;
  effective_priority = normal;
  base_priority = normal;
  enqueued_at_tick = 0;
  wait_ticks = 5;
}

abbrev queue_of : List SchedulerEntry → Scheduler (List SchedulerEntry)
queue_of es = record {
  queue = es;
  capacity = 2;
  current_tick = 3;
  total_scheduled = 0;
  total_ticks = 3;
}

abbrev empty_kernel : Kernel (List SchedulerEntry)
empty_kernel = record {
  agents = [];
  scheduler = queue_of [];
  running = true;
  system_memory = record { total_bytes = 0; agent_count = 0 };
  metrics = RuntimeMetrics.new;
  config = pair_config;
}

-- One agent "a", its memory and its queue entry.
abbrev kernel_in : AgentState → ℕ → Kernel (List SchedulerEntry)
kernel_in s bytes = record empty_kernel {
  agents = ("a", agent_in "a" s bytes) ∷ [];
  scheduler = queue_of (entry_of "a" ∷ []);
  system_memory = record { total_bytes = bytes; agent_count = 1 };
}

reachable-IsValid_example : IsValid {Q = List SchedulerEntry} (
    run
      (with_config pair_config)
      (spawns (new_config "sum") "a" 0 1 2 ∷ allocates "a" 64 ∷ ticks ∷ []))
unfolding new_config
reachable-IsValid_example =
    reachable-IsValid heap pair_config
      (spawns (new_config "sum") "a" 0 1 2 ∷ allocates "a" 64 ∷ ticks ∷ []) (ground arith)

-- What the first round takes out, and the queue that it leaves.
abbrev aged_entry : SchedulerEntry
aged_entry = record (entry_of "a") { effective_priority = high; wait_ticks = 0 }

abbrev after_round : Scheduler (List SchedulerEntry)
after_round = record (queue_of []) { current_tick = 4; total_scheduled = 1; total_ticks = 4 }

first_round :
    Scheduler.dequeue (Scheduler.tick (queue_of (entry_of "a" ∷ [])))
    ≡ (after_round, some aged_entry)
unfolding Scheduler.dequeue Scheduler.tick BinaryHeap.len age pop_list Scheduler.boost
first_round = refl

kernel_in-IsValid : (s : AgentState) (b : ℕ) → b ≤ 100 → IsValid (kernel_in s b)
unfolding Dict.lookup queue_len BinaryHeap.len
kernel_in-IsValid s b l = record {
  within = omega arith;
  is_map = (refl, tt);
  budgets = (record { within = l; peak = omega arith; peak_within = l; is_word = omega arith }, tt);
  queue = record { bounded = omega arith; waits = refl };
  capacity = refl;
}

empty_kernel-IsOpen : IsOpen empty_kernel "a"
unfolding Dict.lookup Dict.contains_key queue_len BinaryHeap.len
empty_kernel-IsOpen = record {
  runs = refl;
  pool_room = omega arith;
  fresh = refl;
  queue_room = omega arith;
}

spawn_outcome_example :
    (IsOpen empty_kernel "a"
      × ((spawn empty_kernel (new_config "sum") "a" 0 1 2).1 ≡ ok "a")
      × IsNewborn (new_config "sum") "a" 1 (Agent.new (new_config "sum") "a" 1)
      × Gains empty_kernel
          (spawn empty_kernel (new_config "sum") "a" 0 1 2).0
          (Agent.new (new_config "sum") "a" 1))
    ⊎ ((e : RuntimeError) × Blocked empty_kernel "a" e
        × (spawn empty_kernel (new_config "sum") "a" 0 1 2 ≡ (empty_kernel, err e)))
spawn_outcome_example = spawn_outcome empty_kernel (new_config "sum") "a" 0 1 2

run_agent_completes_example :
    ((run_agent empty_kernel "sum" "a" (λ n. n)).1
      ≡ ok (from_agent (finished "sum" "a" (λ n. n)) 7 8))
    × (Dict.lookup "a" (run_agent empty_kernel "sum" "a" (λ n. n)).0.agents
        ≡ some (finished "sum" "a" (λ n. n)))
    × (queued (is_of "a") (run_agent empty_kernel "sum" "a" (λ n. n)).0.scheduler ≡ 0)
run_agent_completes_example =
    run_agent_completes empty_kernel "sum" "a" (λ n. n) empty_kernel-IsOpen

step-IsAccounted_example : IsAccounted (step (kernel_in planning 10) (allocates "a" 64))
unfolding Dict.total memory_usage
step-IsAccounted_example =
    step-IsAccounted (kernel_in planning 10) (allocates "a" 64)
      (kernel_in-IsValid planning 10 (omega arith)) (omega arith)
      (record { counted = refl; fits = omega arith })

recover_agent-leaks_example :
    ((b : Agent.Agent) × (Dict.lookup "a" (recover_agent (kernel_in crashed 10) "a" 5).0.agents
        ≡ some b)
      × (memory_usage b ≡ 0))
    × ((recover_agent (kernel_in crashed 10) "a" 5).0.system_memory
        ≡ (kernel_in crashed 10).system_memory)
    × ((recover_agent (kernel_in crashed 10) "a" 5).0.system_memory.total_bytes
        ≡ used (recover_agent (kernel_in crashed 10) "a" 5).0.agents + 10)
unfolding Dict.total Dict.lookup memory_usage
recover_agent-leaks_example =
    recover_agent-leaks (kernel_in crashed 10) "a" (agent_in "a" crashed 10) 5 refl refl
      (record { counted = refl; fits = omega arith })

transition_agent-lost_example :
    queued
      (is_of "a")
      (transition_agent (scheduler_tick (kernel_in spawned 0)) "a" planning 9).0.scheduler
    ≡ 0
unfolding Dict.lookup
transition_agent-lost_example =
    transition_agent-lost (kernel_in spawned 0) aged_entry after_round (agent_in "a" spawned 0)
      planning 9 refl first_round refl (unfold is_active in refl) refl

crashed_found : Dict.lookup "a" (kernel_in crashed 10).agents ≡ some (agent_in "a" crashed 10)
unfolding Dict.lookup
crashed_found = refl

recover_agent_outcome_example :
    Restarted
      (kernel_in crashed 10)
      "a"
      (agent_in "a" crashed 10)
      5
      crashed_found
      refl
      (recover_agent (kernel_in crashed 10) "a" 5)
recover_agent_outcome_example =
    recover_agent_outcome (kernel_in crashed 10) "a" (agent_in "a" crashed 10) 5 crashed_found refl
