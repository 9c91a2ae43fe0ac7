-- ===== src/Runtime/Kernel/Accounting.antt =====
-- The system-wide memory counter against the usage of the agents.
use ughi.Prelude.{
  ℕ, ◌+◌, ◌≤◌, ◌<◌, ◌≡◌, refl, String, not, none, some, Result, inl, inr, arith, length, leb,
  if_elim, Option-cases, Result-cases,
}
use ughi.Prelude.Dict
use ughi.Prelude.Dict.{Dict, contains_key-false, total-insert, total-remove, total-adjust}
use ughi.Runtime.Error.{RuntimeError}
use ughi.Runtime.AgentState.{AgentState}
use ughi.Runtime.AgentMemoryTracker
use ughi.Runtime.AgentMemoryTracker.{AgentMemoryTracker}
use ughi.Runtime.AgentMemoryTracker.Budget.{word}
use ughi.Runtime.SystemMemoryTracker
use ughi.Runtime.SystemMemoryTracker.{SystemMemoryTracker}
use ughi.Runtime.Agent
use ughi.Runtime.Agent.{Agent, AgentConfig, memory_usage}
use ughi.Runtime.BinaryHeap.{BinaryHeap}
use ughi.Runtime.Scheduler
use ughi.Runtime.Kernel.{Kernel, spawn, register_spawn, kill}
use ughi.Runtime.Kernel.Transitions.{transition_agent}
use ughi.Runtime.Kernel.Ticks.{scheduler_tick}
use ughi.Runtime.Kernel.Resources.{grant_capability}
use ughi.Runtime.Kernel.Invariant.{IsValid}
use ughi.Runtime.Kernel.Calls.{Call, recovers, allocates, deallocates, shuts_down}
pub mod Memory

-- The usage of all agents of the pool.
abbrev pub used : Dict Agent → ℕ
used agents = Dict.total memory_usage agents

pub usage-transition :
    (a : Agent) (s : AgentState) (now : ℕ)
    → memory_usage (Agent.transition a s now).0 ≡ memory_usage a
unfolding Agent.transition memory_usage
usage-transition a s now = ground arith

usage-grant_capability :
    (a : Agent) (c : String) → memory_usage (Agent.grant_capability a c) ≡ memory_usage a
unfolding Agent.grant_capability memory_usage
usage-grant_capability a c = ground arith

module _ {Q : Type 0} ⦃h : BinaryHeap Q⦄ where
  -- The counter is the usage of the agents, and that is a word.
  pub record IsAccounted (k : Kernel Q) : Type 0 where
    pub counted : k.system_memory.total_bytes ≡ used k.agents
    pub fits : used k.agents < word

  -- Where the counter follows the agents: an allocation keeps the sum a word, a deallocation does
  -- not exceed what the agent holds, and a recovery or a shutdown finds no memory held.
  abbrev pub IsCareful : Kernel Q → Call → Type 0
  IsCareful k (allocates id bytes) = used k.agents + bytes < word
  IsCareful k (deallocates id bytes) =
      (a : Agent) → Dict.lookup id k.agents ≡ some a → bytes ≤ memory_usage a
  IsCareful k (recovers id now) =
      (a : Agent) → Dict.lookup id k.agents ≡ some a → memory_usage a ≡ 0
  IsCareful k shuts_down = used k.agents ≡ 0
  IsCareful k _ = Unit

  register_spawn-IsAccounted :
      (k : Kernel Q) (a : Agent) (elapsed : ℕ)
      → Dict.lookup a.id k.agents ≡ none
      → memory_usage a ≡ 0
      → IsAccounted k
      → IsAccounted (register_spawn k a elapsed).0
  unfolding register_spawn SystemMemoryTracker.register_agent
  register_spawn-IsAccounted k a elapsed fresh zero_used v =
      elim (Result-cases (Scheduler.enqueue k.scheduler a.id a.priority).1) [
        | inl (u, e) ↦
            rw (e, register_spawn)
              (omega (arith, total-insert memory_usage a.id a k.agents fresh, zero_used, v))
        | inr (x, e) ↦ rw (e, register_spawn) (omega (arith, v))
      ]

  pub spawn-IsAccounted :
      (k : Kernel Q) (config : AgentConfig) (id : String) (start now later : ℕ)
      → IsAccounted k
      → IsAccounted (spawn k config id start now later).0
  unfolding spawn
  spawn-IsAccounted k config id start now later v =
      if_elim Good (not k.running) (λ _. v)
        λ _.
          if_elim Good (leb k.config.max_agents (length k.agents)) (λ _. v)
            λ _.
              if_elim Good (Dict.contains_key id k.agents) (λ _. v)
                λ fresh.
                  register_spawn-IsAccounted k (Agent.new config id now) _
                    (unfold Agent.new in contains_key-false id k.agents fresh)
                    (unfold Agent.new memory_usage AgentMemoryTracker.new in refl) v
    where
      Good : Kernel Q × Result RuntimeError String → Type 0
      Good r = IsAccounted r.0

  pub kill-IsAccounted :
      (k : Kernel Q) (id : String) (now later : ℕ)
      → IsValid k
      → IsAccounted k
      → IsAccounted (kill k id now later).0
  unfolding kill SystemMemoryTracker.unregister_agent
  kill-IsAccounted k id now later v c = elim (Option-cases (Dict.lookup id k.agents)) [
    | inl n ↦ rw (n, kill) c
    | inr (a, e) ↦
        rw (e, kill) (omega (arith, total-remove memory_usage id a k.agents v.is_map e, c))
  ]

  pub transition_agent-IsAccounted :
      (k : Kernel Q) (id : String) (s : AgentState) (now : ℕ)
      → IsAccounted k
      → IsAccounted (transition_agent k id s now).0
  unfolding transition_agent
  transition_agent-IsAccounted k id s now c = elim (Option-cases (Dict.lookup id k.agents)) [
    | inl n ↦ rw (n, transition_agent) c
    | inr (a, e) ↦ elim (Result-cases (Agent.transition a s now).1) [
      | inl (u, t) ↦
          rw (e, t, transition_agent)
            (omega (
              arith,
              total-adjust memory_usage id a (λ _. (Agent.transition a s now).0) k.agents e,
              usage-transition a s now,
              c,
            ))
      | inr (x, t) ↦ rw (e, t, transition_agent) c
    ]
  ]

  pub grant_capability-IsAccounted :
      (k : Kernel Q) (id c : String) → IsAccounted k → IsAccounted (grant_capability k id c).0
  unfolding grant_capability
  grant_capability-IsAccounted k id c v = elim (Option-cases (Dict.lookup id k.agents)) [
    | inl n ↦ rw (n, grant_capability) v
    | inr (a, e) ↦
        rw (e, grant_capability)
          (omega (
            arith,
            total-adjust memory_usage id a (λ b. Agent.grant_capability b c) k.agents e,
            usage-grant_capability a c,
            v,
          ))
  ]

  pub scheduler_tick-IsAccounted : (k : Kernel Q) → IsAccounted k → IsAccounted (scheduler_tick k)
  unfolding scheduler_tick
  scheduler_tick-IsAccounted k v =
      if_elim IsAccounted (not k.running) (λ _. v) (λ _. omega (arith, v))
