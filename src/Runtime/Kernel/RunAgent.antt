-- ===== src/Runtime/Kernel/RunAgent.antt =====
-- `run_agent` of crates/ughi-runtime/src/runtime.rs.
use ughi.Prelude.{ℕ, String, Result, ok, err}
use ughi.Runtime.Error.{RuntimeError}
use ughi.Runtime.AgentState.{planning, thinking, reviewing, completing, high}
use ughi.Runtime.Agent
use ughi.Runtime.Agent.{Agent, AgentSnapshot}
use ughi.Runtime.BinaryHeap.{BinaryHeap}
use ughi.Runtime.Kernel.{Kernel, spawn, monitor}
use ughi.Runtime.Kernel.Transitions.{transition_agent}

module _ {Q : Type 0} ⦃h : BinaryHeap Q⦄ where
  -- `?` after an awaited call.
  abbrev pub and_then :
      {A B : Type 0}
      → Kernel Q × Result RuntimeError A
      → (A → Kernel Q → Kernel Q × Result RuntimeError B)
      → Kernel Q × Result RuntimeError B
  and_then (k, err e) f = (k, err e)
  and_then (k, ok a) f = f a k

  -- The mutex is free between the calls; here no other task runs there. `t` reads the clock.
  unfoldable pub run_agent :
      Kernel Q → String → String → (ℕ → ℕ) → Kernel Q × Result RuntimeError AgentSnapshot
  run_agent k goal id t =
      and_then (spawn k (Agent.with_priority (Agent.new_config goal) high) id (t 0) (t 1) (t 2))
        λ id k. and_then (transition_agent k id planning (t 3)) λ _ k.
          and_then (transition_agent k id thinking (t 4)) λ _ k.
            and_then (transition_agent k id reviewing (t 5)) λ _ k.
              and_then (transition_agent k id completing (t 6)) λ _ k. (k, monitor k id (t 7) (t 8))
