-- ===== src/Runtime/Kernel/Transitions.antt =====
-- `transition_agent` and `recover_agent` of crates/ughi-runtime/src/runtime.rs.
use ughi.Prelude.{ℕ, String, not, none, some, Result, ok, err, if◌then◌else◌}
use ughi.Prelude.Dict
use ughi.Prelude.Dict.{Dict}
use ughi.Runtime.Error.{RuntimeError, agent_not_found, invalid_transition}
use ughi.Runtime.AgentState.{AgentState, spawned, completing, crashed, as_str, state_eq}
use ughi.Runtime.AgentMemoryTracker
use ughi.Runtime.RuntimeMetrics
use ughi.Runtime.RuntimeMetrics.{RuntimeMetrics}
use ughi.Runtime.Agent
use ughi.Runtime.Agent.{Agent}
use ughi.Runtime.BinaryHeap.{BinaryHeap}
use ughi.Runtime.Scheduler
use ughi.Runtime.Scheduler.{Scheduler}
use ughi.Runtime.Kernel.{Kernel}

-- The `match new_state` of `transition_agent`, for the metrics.
unfoldable pub count_transition : AgentState → RuntimeMetrics → RuntimeMetrics
count_transition completing m = RuntimeMetrics.record_completion m
count_transition crashed m = RuntimeMetrics.record_crash m
count_transition _ m = m

module _ {Q : Type 0} ⦃h : BinaryHeap Q⦄ where
  -- The `match new_state` of `transition_agent`, for the scheduler.
  unfoldable pub unschedule : AgentState → String → Scheduler Q → Scheduler Q
  unschedule completing id s = (Scheduler.remove s id).0
  unschedule _ id s = s

  unfoldable pub transition_agent :
      Kernel Q → String → AgentState → ℕ → Kernel Q × Result RuntimeError (Unit {0})
  unfolding count_transition unschedule
  transition_agent k id new_state now = elim (Dict.lookup id k.agents) [
    | none ↦ (k, err (agent_not_found id))
    | some agent ↦
        let (moved, outcome) = Agent.transition agent new_state now in
        elim outcome [
          | err e ↦ (k, err e)
          | ok _ ↦ (
            record k {
              agents = Dict.adjust id (λ _. moved) k.agents;
              metrics = count_transition new_state k.metrics;
              scheduler = unschedule new_state id k.scheduler;
            },
            ok tt,
          )
        ]
  ]

  -- The end of `recover_agent`, from the call of `reset` on.
  unfoldable pub restart : Kernel Q → String → Agent → ℕ → Kernel Q × Result RuntimeError (Unit {0})
  restart k id agent now =
      let cleared = record agent {
        memory_tracker = AgentMemoryTracker.reset agent.memory_tracker;
      } in
      let (moved, outcome) = Agent.transition cleared spawned now in
      let k' = record k { agents = Dict.adjust id (λ _. moved) k.agents } in
      elim outcome [
        | err e ↦ (k', err e)
        | ok _ ↦
            let (scheduler, queued) = Scheduler.enqueue k.scheduler id agent.priority in
            elim queued [
              | err e ↦ (record k' { scheduler = scheduler }, err e)
              | ok _ ↦ (
                record k' {
                  scheduler = scheduler;
                  metrics = RuntimeMetrics.record_spawn k.metrics 0;
                },
                ok tt,
              )
            ]
      ]

  unfoldable pub recover_agent : Kernel Q → String → ℕ → Kernel Q × Result RuntimeError (Unit {0})
  unfolding restart
  recover_agent k id now = elim (Dict.lookup id k.agents) [
    | none ↦ (k, err (agent_not_found id))
    | some agent ↦
        if not (state_eq agent.state crashed)
        then (k, err (invalid_transition id (as_str agent.state) "spawned"))
        else restart k id agent now
  ]
