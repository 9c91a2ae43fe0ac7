-- ===== src/Runtime/Kernel/Calls.antt =====
-- Any sequence of calls of the kernel, as the mutex orders them.
use mathlib.Core.Option.{get_or}
use ughi.Prelude.{ℕ, ◌<◌, String, List, [], ◌∷◌, All}
use ughi.Runtime.AgentState.{AgentState}
use ughi.Runtime.AgentMemoryTracker.Budget.{word}
use ughi.Runtime.Agent.{AgentConfig, default_peak_limit}
use ughi.Runtime.BinaryHeap.{BinaryHeap}
use ughi.Runtime.Kernel.{Kernel, RuntimeConfig, with_config, spawn, kill, shutdown}
use ughi.Runtime.Kernel.Transitions.{transition_agent, recover_agent}
use ughi.Runtime.Kernel.Ticks.{scheduler_tick}
use ughi.Runtime.Kernel.Resources.{grant_capability, agent_allocate, agent_deallocate}
use ughi.Runtime.Kernel.Invariant.{
  IsValid, spawn-IsValid, kill-IsValid, shutdown-IsValid, with_config-IsValid,
}
use ughi.Runtime.Kernel.Preservation.{
  transition_agent-IsValid, recover_agent-IsValid, scheduler_tick-IsValid, grant_capability-IsValid,
  agent_allocate-IsValid, agent_deallocate-IsValid,
}

pub data Call : Type 0 where
  spawns : AgentConfig → String → ℕ → ℕ → ℕ → Call
  kills : String → ℕ → ℕ → Call
  transitions : String → AgentState → ℕ → Call
  recovers : String → ℕ → Call
  ticks : Call
  grants : String → String → Call
  allocates deallocates : String → ℕ → Call
  shuts_down : Call

-- The `u64` arguments are words.
abbrev pub InRange : Call → Type 0
InRange (spawns config id start now later) =
    get_or config.peak_memory_limit default_peak_limit < word
InRange (allocates id bytes) = bytes < word
InRange _ = Unit

module _ {Q : Type 0} ⦃h : BinaryHeap Q⦄ where
  unfoldable pub step : Kernel Q → Call → Kernel Q
  step k (spawns config id start now later) = (spawn k config id start now later).0
  step k (kills id now later) = (kill k id now later).0
  step k (transitions id s now) = (transition_agent k id s now).0
  step k (recovers id now) = (recover_agent k id now).0
  step k ticks = scheduler_tick k
  step k (grants id c) = (grant_capability k id c).0
  step k (allocates id bytes) = (agent_allocate k id bytes).0
  step k (deallocates id bytes) = (agent_deallocate k id bytes).0
  step k shuts_down = shutdown k

  unfoldable pub run : Kernel Q → List Call → Kernel Q
  run k [] = k
  run k (c ∷ cs) = run (step k c) cs

  pub step-IsValid : (k : Kernel Q) (c : Call) → InRange c → IsValid k → IsValid (step k c)
  unfolding step
  step-IsValid k (spawns config id start now later) r v =
      spawn-IsValid k config id start now later r v
  step-IsValid k (kills id now later) r v = kill-IsValid k id now later v
  step-IsValid k (transitions id s now) r v = transition_agent-IsValid k id s now v
  step-IsValid k (recovers id now) r v = recover_agent-IsValid k id now v
  step-IsValid k ticks r v = scheduler_tick-IsValid k v
  step-IsValid k (grants id c) r v = grant_capability-IsValid k id c v
  step-IsValid k (allocates id bytes) r v = agent_allocate-IsValid k id bytes r v
  step-IsValid k (deallocates id bytes) r v = agent_deallocate-IsValid k id bytes v
  step-IsValid k shuts_down r v = shutdown-IsValid k v

  pub run-IsValid :
      (k : Kernel Q) (cs : List Call) → All InRange cs → IsValid k → IsValid (run k cs)
  unfolding run
  run-IsValid k [] r v = v
  run-IsValid k (c ∷ cs) r v = run-IsValid (step k c) cs r.1 (step-IsValid k c r.0 v)

module _ {Q : Type 0} (h : BinaryHeap Q) (config : RuntimeConfig) (cs : List Call)
    (r : All InRange cs) where
  -- From a new kernel, any calls in any order, their sizes being `u64` values, leave it valid: at
  -- most the configured number of agents, each under one id and within its memory budget, and a
  -- queue within its capacity.
  pub reachable-IsValid : IsValid ⦃h = h⦄ (run ⦃h = h⦄ (with_config ⦃h = h⦄ config) cs)
  reachable-IsValid = run-IsValid ⦃h = h⦄ _ cs r (with_config-IsValid h config)
