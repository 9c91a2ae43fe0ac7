-- ===== src/Runtime/Kernel/Preservation.antt =====
-- The calls on one agent, and the tick, keep the kernel valid.
use ughi.Prelude.{
  ℕ, ◌<◌, ◌≡◌, refl, ◌∙◌, String, Option, none, some, inl, inr, arith, Option-cases, Bool-cases,
  Result-cases, if_elim, not,
}
use ughi.Prelude.Dict
use ughi.Prelude.Dict.{Dict, All-lookup}
use ughi.Runtime.AgentState.{AgentState, spawned, completing, state_eq, crashed}
use ughi.Runtime.AgentMemoryTracker
use ughi.Runtime.AgentMemoryTracker.{AgentMemoryTracker}
use ughi.Runtime.AgentMemoryTracker.Budget.{
  IsBudgeted, word, allocate-IsBudgeted, deallocate-IsBudgeted, reset-IsBudgeted,
}
use ughi.Runtime.Agent
use ughi.Runtime.Agent.{Agent, is_active}
use ughi.Runtime.BinaryHeap.{BinaryHeap}
use ughi.Runtime.SchedulerEntry.{SchedulerEntry}
use ughi.Runtime.Scheduler
use ughi.Runtime.Scheduler.{Scheduler}
use ughi.Runtime.Scheduler.Invariant.{
  IsSound, enqueue-IsSound, dequeue-IsSound, tick-IsSound, remove-IsSound, capacity-enqueue,
  capacity-dequeue, capacity-tick, capacity-remove,
}
use ughi.Runtime.Kernel.{Kernel}
use ughi.Runtime.Kernel.Transitions.{transition_agent, recover_agent, restart, unschedule}
use ughi.Runtime.Kernel.Ticks.{scheduler_tick, requeue}
use ughi.Runtime.Kernel.Resources.{grant_capability, agent_allocate, agent_deallocate}
use ughi.Runtime.Kernel.Invariant.{IsValid, KeepsBudget, adjusted-IsValid}

tracker-transition :
    (a : Agent) (s : AgentState) (now : ℕ)
    → (Agent.transition a s now).0.memory_tracker ≡ a.memory_tracker
unfolding Agent.transition
tracker-transition a s now = ground arith

tracker-grant_capability :
    (a : Agent) (c : String) → (Agent.grant_capability a c).memory_tracker ≡ a.memory_tracker
unfolding Agent.grant_capability
tracker-grant_capability a c = ground arith

module _ {Q : Type 0} ⦃h : BinaryHeap Q⦄ where
  unschedule-IsSound :
      (s : AgentState) (id : String) (q : Scheduler Q) → IsSound q → IsSound (unschedule s id q)
  unfolding unschedule
  unschedule-IsSound completing id q v = remove-IsSound q id v
  unschedule-IsSound _ id q v = v

  capacity-unschedule :
      (s : AgentState) (id : String) (q : Scheduler Q) → (unschedule s id q).capacity ≡ q.capacity
  unfolding unschedule
  capacity-unschedule completing id q = capacity-remove q id
  capacity-unschedule _ id q = refl

  pub transition_agent-IsValid :
      (k : Kernel Q) (id : String) (s : AgentState) (now : ℕ)
      → IsValid k
      → IsValid (transition_agent k id s now).0
  unfolding transition_agent
  transition_agent-IsValid k id s now v = elim (Option-cases (Dict.lookup id k.agents)) [
    | inl n ↦ rw (n, transition_agent) v
    | inr (a, e) ↦ elim (Result-cases (Agent.transition a s now).1) [
      | inl (u, t) ↦
          rw (e, t, transition_agent)
            (adjusted-IsValid k _ id (λ _. (Agent.transition a s now).0) refl refl
              (unschedule-IsSound s id k.scheduler v.queue) (capacity-unschedule s id k.scheduler)
              (λ _ _.
                rw (tracker-transition a s now) (All-lookup KeepsBudget id a k.agents v.budgets e))
              v)
      | inr (x, t) ↦ rw (e, t, transition_agent) v
    ]
  ]

  restart-IsValid :
      (k : Kernel Q) (id : String) (a : Agent) (now : ℕ)
      → KeepsBudget a
      → IsValid k
      → IsValid (restart k id a now).0
  unfolding restart
  restart-IsValid k id a now b v =
      let cleared = record a { memory_tracker = AgentMemoryTracker.reset a.memory_tracker } in
      let kept : KeepsBudget (Agent.transition cleared spawned now).0 =
        rw (tracker-transition cleared spawned now) (reset-IsBudgeted a.memory_tracker b) in
      elim (Result-cases (Agent.transition cleared spawned now).1) [
        | inl (u, t) ↦ elim (Result-cases (Scheduler.enqueue k.scheduler id a.priority).1) [
          | inl (w, q) ↦
              rw (t, q, restart)
                (adjusted-IsValid k _ id (λ _. (Agent.transition cleared spawned now).0) refl refl
                  (enqueue-IsSound k.scheduler id a.priority v.queue)
                  (capacity-enqueue k.scheduler id a.priority) (λ _ _. kept) v)
          | inr (x, q) ↦
              rw (t, q, restart)
                (adjusted-IsValid k _ id (λ _. (Agent.transition cleared spawned now).0) refl refl
                  (enqueue-IsSound k.scheduler id a.priority v.queue)
                  (capacity-enqueue k.scheduler id a.priority) (λ _ _. kept) v)
        ]
        | inr (x, t) ↦
            rw (t, restart)
              (adjusted-IsValid k _ id (λ _. (Agent.transition cleared spawned now).0) refl refl
                v.queue refl (λ _ _. kept) v)
      ]

  pub recover_agent-IsValid :
      (k : Kernel Q) (id : String) (now : ℕ) → IsValid k → IsValid (recover_agent k id now).0
  unfolding recover_agent
  recover_agent-IsValid k id now v = elim (Option-cases (Dict.lookup id k.agents)) [
    | inl n ↦ rw (n, recover_agent) v
    | inr (a, e) ↦ elim (Bool-cases (state_eq a.state crashed)) [
      | inl c ↦
          rw (e, recover_agent, c)
            (restart-IsValid k id a now (All-lookup KeepsBudget id a k.agents v.budgets e) v)
      | inr c ↦ rw (e, recover_agent, c) v
    ]
  ]

  requeue-IsSound :
      (agents : Dict Agent) (s : Scheduler Q) (e : Option SchedulerEntry)
      → IsSound s
      → IsSound (requeue agents s e)
  unfolding requeue
  requeue-IsSound agents s none v = v
  requeue-IsSound agents s (some e) v = elim (Option-cases (Dict.lookup e.agent_id agents)) [
    | inl n ↦ rw (n, requeue) v
    | inr (a, f) ↦
        rw (f, requeue)
          (if_elim IsSound (is_active a) (λ _. enqueue-IsSound s e.agent_id e.effective_priority v)
            (λ _. v))
  ]

  capacity-requeue :
      (agents : Dict Agent) (s : Scheduler Q) (e : Option SchedulerEntry)
      → (requeue agents s e).capacity ≡ s.capacity
  unfolding requeue
  capacity-requeue agents s none = refl
  capacity-requeue agents s (some e) = elim (Option-cases (Dict.lookup e.agent_id agents)) [
    | inl n ↦ rw (n, requeue)
    | inr (a, f) ↦
        rw (f, requeue)
          (if_elim (λ (t : Scheduler Q). t.capacity ≡ s.capacity) (is_active a)
            (λ _. capacity-enqueue s e.agent_id e.effective_priority) (λ _. refl))
  ]

  pub scheduler_tick-IsValid : (k : Kernel Q) → IsValid k → IsValid (scheduler_tick k)
  unfolding scheduler_tick
  scheduler_tick-IsValid k v =
      if_elim IsValid (not k.running) (λ _. v)
        λ _.
          (let s = Scheduler.tick k.scheduler in
            let (t, e) = Scheduler.dequeue s in
            record {
              within = v.within;
              is_map = v.is_map;
              budgets = v.budgets;
              queue =
                  requeue-IsSound k.agents t e
                    (dequeue-IsSound s (tick-IsSound k.scheduler v.queue));
              capacity =
                  capacity-requeue k.agents t e
                  ∙ (capacity-dequeue s ∙ (capacity-tick k.scheduler ∙ v.capacity));
            })

  pub grant_capability-IsValid :
      (k : Kernel Q) (id c : String) → IsValid k → IsValid (grant_capability k id c).0
  unfolding grant_capability
  grant_capability-IsValid k id c v = elim (Option-cases (Dict.lookup id k.agents)) [
    | inl n ↦ rw (n, grant_capability) v
    | inr (a, e) ↦
        rw (e, grant_capability)
          (adjusted-IsValid k _ id (λ a. Agent.grant_capability a c) refl refl v.queue refl
            (λ a b. rw (tracker-grant_capability a c) b) v)
  ]

  pub agent_allocate-IsValid :
      (k : Kernel Q) (id : String) (bytes : ℕ)
      → bytes < word
      → IsValid k
      → IsValid (agent_allocate k id bytes).0
  unfolding agent_allocate
  agent_allocate-IsValid k id bytes small v = elim (Option-cases (Dict.lookup id k.agents)) [
    | inl n ↦ rw (n, agent_allocate) v
    | inr (a, e) ↦
        let t = AgentMemoryTracker.allocate a.memory_tracker bytes in
        let kept : IsBudgeted t.0 =
          allocate-IsBudgeted a.memory_tracker bytes small
            (All-lookup KeepsBudget id a k.agents v.budgets e) in
        elim (Result-cases t.1) [
          | inl (u, r) ↦
              rw (e, r, agent_allocate)
                (adjusted-IsValid k _ id (λ a. record a { memory_tracker = t.0 }) refl refl v.queue
                  refl (λ _ _. kept) v)
          | inr (x, r) ↦
              rw (e, r, agent_allocate)
                (adjusted-IsValid k _ id (λ a. record a { memory_tracker = t.0 }) refl refl v.queue
                  refl (λ _ _. kept) v)
        ]
  ]

  pub agent_deallocate-IsValid :
      (k : Kernel Q) (id : String) (bytes : ℕ) → IsValid k → IsValid (agent_deallocate k id bytes).0
  unfolding agent_deallocate
  agent_deallocate-IsValid k id bytes v = elim (Option-cases (Dict.lookup id k.agents)) [
    | inl n ↦ rw (n, agent_deallocate) v
    | inr (a, e) ↦
        rw (e, agent_deallocate)
          (adjusted-IsValid k _ id _ refl refl v.queue refl
            (λ a b. deallocate-IsBudgeted a.memory_tracker bytes b) v)
  ]
