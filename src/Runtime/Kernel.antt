-- ===== src/Runtime/Kernel.antt =====
-- `Runtime` of crates/ughi-runtime/src/runtime.rs. Every method holds the one mutex from its first
-- statement to its last, so a call is one step. The id from nanoid and each reading of the clock, in
-- nanoseconds, are arguments. Logging is left out. Here are the state and the life of the pool; the
-- other methods are in the children.
pub mod Transitions
pub mod Ticks
pub mod Resources
pub mod RunAgent
pub mod Invariant
pub mod Preservation
pub mod Calls
pub mod Spawning
pub mod Accounting
pub mod Rounds
pub mod Recovery
pub mod Moves
pub mod OneShot
pub mod Tests
use ughi.Prelude.{
  ℕ, ◌-◌, ◌/◌, String, Bool, true, false, not, none, some, List, [], map, Result, ok, err, leb,
  if◌then◌else◌, u64, count, length,
}
use ughi.Prelude.Dict
use ughi.Prelude.Dict.{Dict}
use ughi.Runtime.Error.{
  RuntimeError, agent_limit_exceeded, agent_not_found, agent_already_exists, shutting_down,
}
use ughi.Runtime.AgentMemoryTracker
use ughi.Runtime.SystemMemoryTracker
use ughi.Runtime.SystemMemoryTracker.{SystemMemoryTracker}
use ughi.Runtime.RuntimeMetrics
use ughi.Runtime.RuntimeMetrics.{RuntimeMetrics}
use ughi.Runtime.Agent
use ughi.Runtime.Agent.{Agent, AgentConfig, AgentSnapshot, from_agent, is_active, memory_usage}
use ughi.Runtime.BinaryHeap.{BinaryHeap}
use ughi.Runtime.Scheduler
use ughi.Runtime.Scheduler.{Scheduler}

pub record RuntimeConfig : Type 0 where
  pub max_agents : ℕ
  pub scheduler_tick_ms : ℕ
  pub fair_scheduling : Bool

-- `RuntimeConfig::default`
abbrev pub default_config : RuntimeConfig
default_config = record { max_agents = 50; scheduler_tick_ms = 100; fair_scheduling = true }

-- `Runtime`, with the fields of `RuntimeInner`.
pub record Kernel (Q : Type 0) : Type 0 where
  pub agents : Dict Agent
  pub scheduler : Scheduler Q
  pub running : Bool
  pub system_memory : SystemMemoryTracker
  pub metrics : RuntimeMetrics
  pub config : RuntimeConfig

module _ {Q : Type 0} ⦃h : BinaryHeap Q⦄ where
  unfoldable pub with_config : RuntimeConfig → Kernel Q
  with_config config = record {
    agents = [];
    scheduler = Scheduler.new config.max_agents;
    running = true;
    system_memory = SystemMemoryTracker.new;
    metrics = RuntimeMetrics.new;
    config = config;
  }

  unfoldable pub new : ℕ → Kernel Q
  unfolding with_config
  new max_agents = with_config (record default_config { max_agents = max_agents })

  -- The end of `spawn`, from the call of `enqueue` on.
  unfoldable pub register_spawn : Kernel Q → Agent → ℕ → Kernel Q × Result RuntimeError String
  register_spawn k agent elapsed_us =
      let (scheduler, queued) = Scheduler.enqueue k.scheduler agent.id agent.priority in
      elim queued [
        | err e ↦ (record k { scheduler = scheduler }, err e)
        | ok _ ↦ (
          record k {
            scheduler = scheduler;
            system_memory = SystemMemoryTracker.register_agent k.system_memory 0;
            agents = Dict.insert agent.id agent k.agents;
            metrics = RuntimeMetrics.record_spawn k.metrics elapsed_us;
          },
          ok agent.id,
        )
      ]

  -- `start`, `now` and `later` are the readings at the top, in `Agent::new` and at the end.
  unfoldable pub spawn :
      Kernel Q → AgentConfig → String → ℕ → ℕ → ℕ → Kernel Q × Result RuntimeError String
  unfolding register_spawn
  spawn k config id start now later =
      if not k.running
      then (k, err shutting_down)
      else if leb k.config.max_agents (length k.agents)
      then (k, err (agent_limit_exceeded k.config.max_agents))
      else if Dict.contains_key id k.agents
      then (k, err (agent_already_exists id))
      else register_spawn k (Agent.new config id now) (u64 ((later - start) / 1000))

  unfoldable pub kill : Kernel Q → String → ℕ → ℕ → Kernel Q × Result RuntimeError AgentSnapshot
  kill k id now later = elim (Dict.lookup id k.agents) [
    | none ↦ (k, err (agent_not_found id))
    | some agent ↦ (
      record k {
        agents = Dict.remove id k.agents;
        scheduler = (Scheduler.remove k.scheduler id).0;
        system_memory = SystemMemoryTracker.unregister_agent k.system_memory (memory_usage agent);
        metrics = RuntimeMetrics.record_kill k.metrics;
      },
      ok (from_agent agent now later),
    )
  ]

  unfoldable pub monitor : Kernel Q → String → ℕ → ℕ → Result RuntimeError AgentSnapshot
  monitor k id now later = elim (Dict.lookup id k.agents) [
    | none ↦ err (agent_not_found id)
    | some agent ↦ ok (from_agent agent now later)
  ]

  unfoldable pub list_agents : Kernel Q → ℕ → ℕ → List AgentSnapshot
  list_agents k now later = map (λ a. from_agent a now later) (Dict.values k.agents)

  unfoldable pub agent_count : Kernel Q → ℕ
  agent_count k = length k.agents

  unfoldable pub active_agent_count : Kernel Q → ℕ
  active_agent_count k = count is_active (Dict.values k.agents)

  unfoldable pub shutdown : Kernel Q → Kernel Q
  shutdown k = record k { running = false; agents = [] }
