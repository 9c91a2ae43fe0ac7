-- ===== src/Runtime/Kernel/Invariant.antt =====
-- What holds of the kernel between two calls.
use mathlib.Core.Option.{get_or}
use ughi.Prelude.{
  ℕ, ◌≤◌, ◌<◌, ◌≡◌, refl, ◌∙◌, String, none, Result, inl, inr, arith, length, All, leb,
  Option-cases, Result-cases, if_elim, not,
}
use ughi.Prelude.Dict
use ughi.Prelude.Dict.{
  Dict, IsMap-insert, IsMap-remove, IsMap-adjust, length-insert, contains_key-false, length-adjust,
  length-remove-le, All-insert, All-remove, All-adjust,
}
use ughi.Runtime.AgentMemoryTracker.Budget.{IsBudgeted, word, new-IsBudgeted}
use ughi.Runtime.Agent
use ughi.Runtime.Agent.{Agent, AgentConfig, default_peak_limit}
use ughi.Runtime.BinaryHeap.{BinaryHeap}
use ughi.Runtime.Error.{RuntimeError}
use ughi.Runtime.Scheduler
use ughi.Runtime.Scheduler.{Scheduler}
use ughi.Runtime.Scheduler.Invariant.{
  IsSound, new-IsSound, enqueue-IsSound, remove-IsSound, capacity-enqueue, capacity-remove,
}
use ughi.Runtime.Kernel.{Kernel, RuntimeConfig, with_config, spawn, register_spawn, kill, shutdown}

-- The usage of the agent is within its budget.
abbrev pub KeepsBudget : Agent → Type 0
KeepsBudget a = IsBudgeted a.memory_tracker

module _ {Q : Type 0} ⦃h : BinaryHeap Q⦄ where
  pub record IsValid (k : Kernel Q) : Type 0 where
    -- No more agents than the configured number, each under one id.
    pub within : length k.agents ≤ k.config.max_agents
    pub is_map : Dict.IsMap k.agents
    pub budgets : All KeepsBudget (Dict.values k.agents)
    pub queue : IsSound k.scheduler
    pub capacity : k.scheduler.capacity ≡ k.config.max_agents

  -- The agents change by one write to an agent, and the scheduler soundly.
  pub adjusted-IsValid :
      (k k' : Kernel Q) (id : String) (f : Agent → Agent)
      → k'.agents ≡ Dict.adjust id f k.agents
      → k'.config ≡ k.config
      → IsSound k'.scheduler
      → k'.scheduler.capacity ≡ k.scheduler.capacity
      → ((a : Agent) → KeepsBudget a → KeepsBudget (f a))
      → IsValid k
      → IsValid k'
  adjusted-IsValid k k' id f agents config sound capacity keeps v = record {
    within = rw (agents, config, length-adjust id f k.agents) v.within;
    is_map = rw agents (IsMap-adjust id f k.agents v.is_map);
    budgets = rw agents (All-adjust KeepsBudget id f k.agents keeps v.budgets);
    queue = sound;
    capacity = rw (capacity, config) v.capacity;
  }

  register_spawn-IsValid :
      (k : Kernel Q) (agent : Agent) (elapsed : ℕ)
      → length k.agents < k.config.max_agents
      → Dict.lookup agent.id k.agents ≡ none
      → KeepsBudget agent
      → IsValid k
      → IsValid (register_spawn k agent elapsed).0
  unfolding register_spawn
  register_spawn-IsValid k agent elapsed room fresh budget v =
      elim (Result-cases (Scheduler.enqueue k.scheduler agent.id agent.priority).1) [
        | inl (u, e) ↦
            rw (e, register_spawn)
              (record {
                within = rw (length-insert agent.id agent k.agents fresh) room;
                is_map = IsMap-insert agent.id agent k.agents v.is_map;
                budgets = All-insert KeepsBudget agent.id agent k.agents budget v.budgets;
                queue = enqueue-IsSound k.scheduler agent.id agent.priority v.queue;
                capacity = capacity-enqueue k.scheduler agent.id agent.priority ∙ v.capacity;
              })
        | inr (x, e) ↦
            rw (e, register_spawn)
              (record {
                within = v.within;
                is_map = v.is_map;
                budgets = v.budgets;
                queue = enqueue-IsSound k.scheduler agent.id agent.priority v.queue;
                capacity = capacity-enqueue k.scheduler agent.id agent.priority ∙ v.capacity;
              })
      ]

  -- A new agent is admitted only below the limit and under a fresh id, with a budget that is a word.
  pub spawn-IsValid :
      (k : Kernel Q) (config : AgentConfig) (id : String) (start now later : ℕ)
      → get_or config.peak_memory_limit default_peak_limit < word
      → IsValid k
      → IsValid (spawn k config id start now later).0
  unfolding spawn
  spawn-IsValid k config id start now later small v =
      if_elim Good (not k.running) (λ _. v)
        λ _.
          if_elim Good (leb k.config.max_agents (length k.agents)) (λ _. v)
            λ room.
              if_elim Good (Dict.contains_key id k.agents) (λ _. v)
                λ fresh.
                  register_spawn-IsValid k (Agent.new config id now) _ (ground arith)
                    (unfold Agent.new in contains_key-false id k.agents fresh)
                    (unfold Agent.new in new-IsBudgeted _ small) v
    where
      Good : Kernel Q × Result RuntimeError String → Type 0
      Good r = IsValid r.0

  pub kill-IsValid :
      (k : Kernel Q) (id : String) (now later : ℕ) → IsValid k → IsValid (kill k id now later).0
  unfolding kill
  kill-IsValid k id now later v = elim (Option-cases (Dict.lookup id k.agents)) [
    | inl n ↦ rw (n, kill) v
    | inr (a, e) ↦
        rw (e, kill)
          (record {
            within = omega (arith, length-remove-le id k.agents, v.within);
            is_map = IsMap-remove id k.agents v.is_map;
            budgets = All-remove KeepsBudget id k.agents v.budgets;
            queue = remove-IsSound k.scheduler id v.queue;
            capacity = capacity-remove k.scheduler id ∙ v.capacity;
          })
  ]

  pub shutdown-IsValid : (k : Kernel Q) → IsValid k → IsValid (shutdown k)
  unfolding shutdown
  shutdown-IsValid k v = record {
    within = omega arith;
    is_map = tt;
    budgets = tt;
    queue = v.queue;
    capacity = v.capacity;
  }

module _ {Q : Type 0} (h : BinaryHeap Q) where
  pub with_config-IsValid : (config : RuntimeConfig) → IsValid ⦃h = h⦄ (with_config ⦃h = h⦄ config)
  unfolding with_config Scheduler.new
  with_config-IsValid config = record {
    within = omega arith;
    is_map = tt;
    budgets = tt;
    queue = new-IsSound h config.max_agents;
    capacity = refl;
  }
