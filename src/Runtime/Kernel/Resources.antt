-- ===== src/Runtime/Kernel/Resources.antt =====
-- `grant_capability`, `agent_allocate` and `agent_deallocate` of
-- crates/ughi-runtime/src/runtime.rs.
use ughi.Prelude.{ℕ, String, none, some, Result, ok, err}
use ughi.Prelude.Dict
use ughi.Prelude.Dict.{Dict}
use ughi.Runtime.Error.{RuntimeError, agent_not_found}
use ughi.Runtime.AgentMemoryTracker
use ughi.Runtime.SystemMemoryTracker
use ughi.Runtime.SystemMemoryTracker.{SystemMemoryTracker}
use ughi.Runtime.Agent
use ughi.Runtime.Agent.{Agent}
use ughi.Runtime.BinaryHeap.{BinaryHeap}
use ughi.Runtime.Kernel.{Kernel}

module _ {Q : Type 0} ⦃h : BinaryHeap Q⦄ where
  unfoldable pub grant_capability :
      Kernel Q → String → String → Kernel Q × Result RuntimeError (Unit {0})
  grant_capability k id capability = elim (Dict.lookup id k.agents) [
    | none ↦ (k, err (agent_not_found id))
    | some agent ↦ (
      record k { agents = Dict.adjust id (λ a. Agent.grant_capability a capability) k.agents },
      ok tt,
    )
  ]

  unfoldable pub agent_allocate : Kernel Q → String → ℕ → Kernel Q × Result RuntimeError (Unit {0})
  agent_allocate k id bytes = elim (Dict.lookup id k.agents) [
    | none ↦ (k, err (agent_not_found id))
    | some agent ↦
        let (tracker, outcome) = AgentMemoryTracker.allocate agent.memory_tracker bytes in
        let k' = record k {
          agents = Dict.adjust id (λ a. record a { memory_tracker = tracker }) k.agents;
        } in
        elim outcome [
          | err e ↦ (k', err e)
          | ok _ ↦ (
            record k' { system_memory = SystemMemoryTracker.add_bytes k.system_memory bytes },
            ok tt,
          )
        ]
  ]

  unfoldable pub agent_deallocate :
      Kernel Q → String → ℕ → Kernel Q × Result RuntimeError (Unit {0})
  agent_deallocate k id bytes = elim (Dict.lookup id k.agents) [
    | none ↦ (k, err (agent_not_found id))
    | some agent ↦ (
      record k {
        agents =
            Dict.adjust id
              (λ a. record a {
                memory_tracker = AgentMemoryTracker.deallocate a.memory_tracker bytes;
              })
              k.agents;
        system_memory = SystemMemoryTracker.sub_bytes k.system_memory bytes;
      },
      ok tt,
    )
  ]
