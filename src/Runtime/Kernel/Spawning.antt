-- ===== src/Runtime/Kernel/Spawning.antt =====
-- What `spawn` does on each branch.
use ughi.Prelude.{
  ℕ, ◌+◌, ◌-◌, ◌*◌, ◌/◌, ◌≤◌, ◌<◌, ◌≡◌, refl, ◌⊎◌, inl, inr, String, Bool, true, false, not, none,
  some, [], Option-cases, Result, ok, err, arith, length, unit, u64, leb, leb→le, if_elim,
  if◌then◌else◌, str_eq,
}
use ughi.Prelude.Dict
use ughi.Prelude.Dict.{lookup-insert, contains_key-false, length-insert}
use ughi.Runtime.Error.{
  RuntimeError, shutting_down, agent_limit_exceeded, agent_already_exists, scheduler_full,
}
use ughi.Runtime.AgentState.{spawned}
use ughi.Runtime.AgentMemoryTracker
use ughi.Runtime.Agent
use ughi.Runtime.Agent.{Agent, AgentConfig}
use ughi.Runtime.SchedulerEntry
use ughi.Runtime.SchedulerEntry.{SchedulerEntry}
use ughi.Runtime.BinaryHeap.{BinaryHeap}
use ughi.Runtime.Scheduler.{queue_len}
use ughi.Runtime.Scheduler.Order.{queued, enqueue_outcome}
use ughi.Runtime.RuntimeMetrics
use ughi.Runtime.Kernel.{Kernel, spawn, register_spawn}

-- The new agent follows its configuration, is in its first state, and holds no capability and no memory.
pub record IsNewborn (config : AgentConfig) (id : String) (now : ℕ) (a : Agent) : Type 0 where
  pub own_id : a.id ≡ id
  pub goal : a.goal ≡ config.goal
  pub parent_id : a.parent_id ≡ config.parent_id
  pub priority : a.priority ≡ config.priority
  pub state : a.state ≡ spawned
  pub capabilities : a.capabilities ≡ []
  pub usage : a.memory_tracker.current_bytes ≡ 0
  pub limit :
      a.memory_tracker.limit_bytes
      ≡ (elim config.peak_memory_limit [ none ↦ 140 * 1024 * 1024 | some n ↦ n ])
  pub created_at : a.created_at ≡ now
  pub transition_count : a.transition_count ≡ 0

new-IsNewborn :
    (config : AgentConfig) (id : String) (now : ℕ)
    → IsNewborn config id now (Agent.new config id now)
unfolding Agent.new AgentMemoryTracker.new
new-IsNewborn config id now = record {
  own_id = refl;
  goal = refl;
  parent_id = refl;
  priority = refl;
  state = refl;
  capabilities = refl;
  usage = refl;
  limit = elim (Option-cases config.peak_memory_limit) [
    | inl e ↦ rw e refl
    | inr (n, e) ↦ rw e refl
  ];
  created_at = refl;
  transition_count = refl;
}

module _ {Q : Type 0} ⦃h : BinaryHeap Q⦄ where
  -- The kernel runs, has room in the pool and in the queue, and does not know the id.
  pub record IsOpen (k : Kernel Q) (id : String) : Type 0 where
    pub runs : k.running ≡ true
    pub pool_room : length k.agents < k.config.max_agents
    pub fresh : Dict.contains_key id k.agents ≡ false
    pub queue_room : queue_len k.scheduler < k.scheduler.capacity

  -- Why the error is given: the checks in their order, each after those before it passed.
  abbrev pub Blocked : Kernel Q → String → RuntimeError → Type 0
  Blocked k id shutting_down = k.running ≡ false
  Blocked k id (agent_limit_exceeded m) =
      (k.running ≡ true) × (m ≡ k.config.max_agents) × (k.config.max_agents ≤ length k.agents)
  Blocked k id (agent_already_exists j) =
      (k.running ≡ true)
      × (length k.agents < k.config.max_agents)
      × (j ≡ id)
      × (Dict.contains_key id k.agents ≡ true)
  Blocked k id (scheduler_full c) =
      (k.running ≡ true)
      × (length k.agents < k.config.max_agents)
      × (Dict.contains_key id k.agents ≡ false)
      × (c ≡ k.scheduler.capacity)
      × (c ≤ queue_len k.scheduler)
  Blocked k id _ = ⊥

  -- The pool has gained this agent under its id, and the queue its entry.
  pub record Gains (k k' : Kernel Q) (a : Agent) : Type 0 where
    pub agents :
        (j : String)
        → Dict.lookup j k'.agents ≡ (if str_eq a.id j then some a else Dict.lookup j k.agents)
    pub size : length k'.agents ≡ length k.agents + 1
    pub entries :
        (p : SchedulerEntry → Bool)
        → queued p k'.scheduler
          ≡ unit (p (SchedulerEntry.new a.id a.priority k.scheduler.current_tick))
            + queued p k.scheduler
    pub spawned_count : k'.metrics.agents_total_spawned ≡ u64 (k.metrics.agents_total_spawned + 1)

  register_spawn_outcome :
      (k : Kernel Q) (a : Agent) (elapsed : ℕ)
      → k.running ≡ true
      → length k.agents < k.config.max_agents
      → Dict.contains_key a.id k.agents ≡ false
      → (IsOpen k a.id
          × ((register_spawn k a elapsed).1 ≡ ok a.id)
          × Gains k (register_spawn k a elapsed).0 a)
        ⊎ ((e : RuntimeError) × Blocked k a.id e × (register_spawn k a elapsed ≡ (k, err e)))
  unfolding register_spawn SchedulerEntry.new
  register_spawn_outcome k a elapsed runs room fresh =
      elim (enqueue_outcome k.scheduler a.id a.priority) [
        | inl (full, e) ↦
            inr (scheduler_full k.scheduler.capacity, (runs, room, fresh, refl, full), ground arith)
        | inr (queue_room, done, longer, adds) ↦ inl (
          record { runs = runs; pool_room = room; fresh = fresh; queue_room = queue_room },
          rw (done, register_spawn),
          rw (done, register_spawn)
              (record {
                agents = λ j. lookup-insert a.id j a k.agents;
                size =
                    omega (
                      arith,
                      length-insert a.id a k.agents (contains_key-false a.id k.agents fresh),
                    );
                entries = adds;
                spawned_count = unfold RuntimeMetrics.record_spawn in refl;
              }),
        )
      ]

  -- `spawn` adds one agent, as the configuration says, without capabilities and in its first state,
  -- and one queue entry exactly when the kernel runs, has room in the pool, does not know the id and
  -- has room in the queue; otherwise it changes nothing and gives the error for the first of these that
  -- fails, in this order.
  pub spawn_outcome :
      (k : Kernel Q) (config : AgentConfig) (id : String) (start now later : ℕ)
      → (IsOpen k id
          × ((spawn k config id start now later).1 ≡ ok id)
          × IsNewborn config id now (Agent.new config id now)
          × Gains k (spawn k config id start now later).0 (Agent.new config id now))
        ⊎ ((e : RuntimeError) × Blocked k id e × (spawn k config id start now later ≡ (k, err e)))
  unfolding spawn
  spawn_outcome k config id start now later =
      if_elim Outcome (not k.running) (λ stopped. inr (shutting_down, ground arith, refl))
        λ runs.
          let runs' : k.running ≡ true = ground arith in
          if_elim Outcome (leb k.config.max_agents (length k.agents))
            (λ full.
              inr (agent_limit_exceeded k.config.max_agents, (runs', refl, leb→le _ _ full), refl))
            λ room.
              let room' : length k.agents < k.config.max_agents = ground arith in
              if_elim Outcome (Dict.contains_key id k.agents)
                (λ taken. inr (agent_already_exists id, (runs', room', refl, taken), refl))
                λ fresh.
                  unfold Agent.new in
                  elim (register_spawn_outcome k (Agent.new config id now)
                    (u64 ((later - start) / 1000)) runs' room' fresh) [
                      | inl (o, e, g) ↦ inl (o, e, new-IsNewborn config id now, g)
                      | inr r ↦ inr r
                    ]
    where
      Outcome : Kernel Q × Result RuntimeError String → Type 0
      Outcome r =
          (IsOpen k id
            × (r.1 ≡ ok id)
            × IsNewborn config id now (Agent.new config id now)
            × Gains k r.0 (Agent.new config id now))
          ⊎ ((e : RuntimeError) × Blocked k id e × (r ≡ (k, err e)))
