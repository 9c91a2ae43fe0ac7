-- ===== src/Runtime/Kernel/OneShot.antt =====
-- A run of `run_agent` in which no other task comes between its calls.
use ughi.Prelude.{
  ℕ, ◌≡◌, refl, ap, ◌∙◌, String, eq_refl, false, ◌&&◌, some, Result, ok, inl, inr, arith,
  count_none,
}
use ughi.Prelude.Dict
use ughi.Runtime.Error.{
  RuntimeError, shutting_down, agent_limit_exceeded, agent_already_exists, scheduler_full,
}
use ughi.Runtime.AgentState.{planning, thinking, reviewing, completing, high, can_transition_to}
use ughi.Runtime.Agent
use ughi.Runtime.Agent.{Agent, AgentConfig, AgentSnapshot, from_agent}
use ughi.Runtime.SchedulerEntry.{SchedulerEntry}
use ughi.Runtime.BinaryHeap.{BinaryHeap}
use ughi.Runtime.Scheduler.{Scheduler, is_other}
use ughi.Runtime.Scheduler.Order.{queued, remove_exact}
use ughi.Runtime.Kernel.{Kernel, spawn, monitor}
use ughi.Runtime.Kernel.Transitions.{transition_agent, unschedule}
use ughi.Runtime.Kernel.RunAgent.{run_agent}
use ughi.Runtime.Kernel.Spawning.{IsOpen, Blocked, spawn_outcome}
use ughi.Runtime.Kernel.Moves.{moved_to, transition_agent_moves}
use ughi.Runtime.Kernel.Rounds.{is_of}

-- The configuration that `run_agent` spawns with, and the agent at its end.
abbrev one_shot : String → AgentConfig
one_shot goal = Agent.with_priority (Agent.new_config goal) high

abbrev pub finished : String → String → (ℕ → ℕ) → Agent
finished goal id t =
    moved_to
      (moved_to
        (moved_to (moved_to (Agent.new (one_shot goal) id (t 1)) planning (t 3)) thinking (t 4))
        reviewing (t 5))
      completing (t 6)

not_both : (id : String) (e : SchedulerEntry) → (is_of id e && is_other id e) ≡ false
not_both id e = ground arith

module _ {Q : Type 0} ⦃h : BinaryHeap Q⦄ where
  open_ne-Blocked :
      (k : Kernel Q) (id : String) (e : RuntimeError) → IsOpen k id → Blocked k id e → ⊥
  open_ne-Blocked k id shutting_down o b = ground (arith, o.runs)
  open_ne-Blocked k id (agent_limit_exceeded m) o b = omega (arith, o.pool_room, b)
  open_ne-Blocked k id (agent_already_exists j) o b = ground (arith, o.fresh)
  open_ne-Blocked k id (scheduler_full c) o b = omega (arith, o.queue_room, b)
  open_ne-Blocked k id _ o b = b

  unscheduled : (id : String) (q : Scheduler Q) → queued (is_of id) (unschedule completing id q) ≡ 0
  unfolding unschedule
  unscheduled id q =
      (remove_exact q id).0 (is_of id) ∙ count_none _ (h.to_vec q.queue) (not_both id)

  monitor_found :
      (k : Kernel Q) (id : String) (a : Agent) (n l : ℕ)
      → Dict.lookup id k.agents ≡ some a
      → monitor k id n l ≡ ok (from_agent a n l)
  unfolding monitor from_agent
  monitor_found k id a n l known = rw (monitor, known) refl

  -- A kernel that runs, has room in the pool and in the queue and does not know the id runs the
  -- agent to its end, if no other call comes between: the snapshot is that of the agent after its
  -- four transitions, the agent stays in the pool and has no entry left in the queue.
  pub run_agent_completes :
      (k : Kernel Q) (goal id : String) (t : ℕ → ℕ)
      → IsOpen k id
      → ((run_agent k goal id t).1 ≡ ok (from_agent (finished goal id t) (t 7) (t 8)))
        × (Dict.lookup id (run_agent k goal id t).0.agents ≡ some (finished goal id t))
        × (queued (is_of id) (run_agent k goal id t).0.scheduler ≡ 0)
  unfolding run_agent Agent.new
  run_agent_completes k goal id t o = elim (spawn_outcome k (one_shot goal) id (t 0) (t 1) (t 2)) [
    | inr (e, blocked, same) ↦ absurd (open_ne-Blocked k id e o blocked)
    | inl (_, e1, _, gains) ↦
        let k1 = (spawn k (one_shot goal) id (t 0) (t 1) (t 2)).0 in
        let a1 = Agent.new (one_shot goal) id (t 1) in
        let l1 : Dict.lookup id k1.agents ≡ some a1 = gains.agents id ∙ rw (eq_refl id) in
        let (e2, l2, s2) =
          transition_agent_moves k1 id a1 planning (t 3) l1 (unfold can_transition_to in refl) in
        let k2 = (transition_agent k1 id planning (t 3)).0 in
        let (e3, l3, s3) =
          transition_agent_moves k2 id (moved_to a1 planning (t 3)) thinking (t 4) l2
            (unfold can_transition_to in refl) in
        let k3 = (transition_agent k2 id thinking (t 4)).0 in
        let (e4, l4, s4) =
          transition_agent_moves k3 id _ reviewing (t 5) l3 (unfold can_transition_to in refl) in
        let k4 = (transition_agent k3 id reviewing (t 5)).0 in
        let (e5, l5, s5) =
          transition_agent_moves k4 id _ completing (t 6) l4 (unfold can_transition_to in refl) in
        let k5 = (transition_agent k4 id completing (t 6)).0 in
        let gone : queued (is_of id) k5.scheduler ≡ 0 =
          ap (queued (is_of id)) s5 ∙ unscheduled id k4.scheduler in
        let whole : run_agent k goal id t ≡ (k5, monitor k5 id (t 7) (t 8)) =
          rw (e1, e2, e3, e4, e5) refl in
        (
          ap (λ (r : Kernel Q × Result RuntimeError AgentSnapshot). r.1) whole
              ∙ monitor_found k5 id _ (t 7) (t 8) l5,
          ap (λ (r : Kernel Q × Result RuntimeError AgentSnapshot). Dict.lookup id r.0.agents) whole
              ∙ l5,
          ap (λ (r : Kernel Q × Result RuntimeError AgentSnapshot). queued (is_of id) r.0.scheduler)
                whole
              ∙ gone,
        )
  ]
