-- ===== src/Runtime/Kernel/Moves.antt =====
-- An allowed transition of a known agent.
use ughi.Prelude.{ℕ, ◌+◌, ◌≡◌, ap, String, eq_refl, true, some, Result, ok, inl, inr, arith, u64}
use ughi.Prelude.Dict
use ughi.Prelude.Dict.{lookup-adjust}
use ughi.Runtime.Error.{RuntimeError}
use ughi.Runtime.AgentState.{AgentState, can_transition_to}
use ughi.Runtime.Agent
use ughi.Runtime.Agent.{Agent}
use ughi.Runtime.Agent.History.{transition_outcome}
use ughi.Runtime.BinaryHeap.{BinaryHeap}
use ughi.Runtime.Kernel.{Kernel}
use ughi.Runtime.Kernel.Transitions.{transition_agent, unschedule}

abbrev pub moved_to : Agent → AgentState → ℕ → Agent
moved_to a s now = record a {
  state = s;
  last_active = now;
  transition_count = u64 (a.transition_count + 1);
}

module _ {Q : Type 0} ⦃h : BinaryHeap Q⦄ where
  pub transition_agent_moves :
      (k : Kernel Q) (id : String) (a : Agent) (s : AgentState) (now : ℕ)
      → Dict.lookup id k.agents ≡ some a
      → can_transition_to a.state s ≡ true
      → ((transition_agent k id s now).1 ≡ ok tt)
        × (Dict.lookup id (transition_agent k id s now).0.agents ≡ some (moved_to a s now))
        × ((transition_agent k id s now).0.scheduler ≡ unschedule s id k.scheduler)
  unfolding transition_agent
  transition_agent_moves k id a s now known allowed = elim (transition_outcome a s now) [
    | inl (refused, same) ↦ absurd (ground arith)
    | inr (_, moves) ↦
        let fine = ap (λ (r : Agent × Result RuntimeError (Unit {0})). r.1) moves in
        let moved = ap (λ (r : Agent × Result RuntimeError (Unit {0})). r.0) moves in
        (
          rw (known, transition_agent, fine),
          rw (known, transition_agent, fine)
              (rw
                (
                  lookup-adjust id id (λ _. (Agent.transition a s now).0) k.agents,
                  eq_refl id,
                  known,
                )
                (ap some moved)),
          rw (known, transition_agent, fine),
        )
  ]
