-- ===== src/Runtime/Kernel/Recovery.antt =====
-- What `recover_agent` does to a crashed agent and its place in the queue.
use ughi.Prelude.{
  ◌∙◌, ℕ, ◌+◌, ◌≤◌, ◌<◌, ◌≡◌, refl, ap, String, eq_refl, Bool, some, Result, ok, err, ◌⊎◌, inl, inr,
  arith, unit, u64,
}
use ughi.Prelude.Dict
use ughi.Prelude.Dict.{lookup-adjust}
use ughi.Runtime.Error.{RuntimeError, scheduler_full}
use ughi.Runtime.AgentState.{spawned, crashed, state_eq, can_transition_to}
use ughi.Runtime.AgentMemoryTracker
use ughi.Runtime.Agent
use ughi.Runtime.Agent.{Agent}
use ughi.Runtime.SchedulerEntry
use ughi.Runtime.SchedulerEntry.{SchedulerEntry}
use ughi.Runtime.BinaryHeap.{BinaryHeap}
use ughi.Runtime.Scheduler.{Scheduler, queue_len}
use ughi.Runtime.Scheduler.Order.{queued, enqueue_outcome}
use ughi.Runtime.Kernel.{Kernel}
use ughi.Runtime.Kernel.Rounds.{is_of}
use ughi.Runtime.Kernel.Moves.{moved_to, transition_agent_moves}
use ughi.Runtime.Kernel.Transitions.{transition_agent, recover_agent, restart, unschedule}

-- The agent after a recovery: back at the start, with an empty memory account.
abbrev pub recovered : Agent → ℕ → Agent
recovered a now = record a {
  state = spawned;
  memory_tracker = AgentMemoryTracker.reset a.memory_tracker;
  last_active = now;
  transition_count = u64 (a.transition_count + 1);
}

transition-crashed :
    (a : Agent) (now : ℕ)
    → a.state ≡ crashed
    → Agent.transition
        (record a { memory_tracker = AgentMemoryTracker.reset a.memory_tracker })
        spawned
        now
      ≡ (recovered a now, ok tt)
unfolding Agent.transition can_transition_to
transition-crashed a now c = ground arith

module _ {Q : Type 0} ⦃h : BinaryHeap Q⦄ (k : Kernel Q) (id : String) (a : Agent) (now : ℕ)
    (known : Dict.lookup id k.agents ≡ some a) (c : a.state ≡ crashed) where
  cleared : Agent
  cleared = record a { memory_tracker = AgentMemoryTracker.reset a.memory_tracker }

  moved : (Agent.transition cleared spawned now).0 ≡ recovered a now
  unfolding cleared
  moved = ap (λ (r : Agent × Result RuntimeError (Unit {0})). r.0) (transition-crashed a now c)

  done : (Agent.transition cleared spawned now).1 ≡ ok tt
  unfolding cleared
  done = ap (λ (r : Agent × Result RuntimeError (Unit {0})). r.1) (transition-crashed a now c)

  recover-restart : recover_agent k id now ≡ restart k id a now
  unfolding recover_agent
  recover-restart = rw (known, recover_agent, ap (λ s. state_eq s crashed) c)

  found :
      Dict.lookup id (Dict.adjust id (λ _. (Agent.transition cleared spawned now).0) k.agents)
      ≡ some (recovered a now)
  found =
      rw
        (
          lookup-adjust id id (λ _. (Agent.transition cleared spawned now).0) k.agents,
          eq_refl id,
          known,
        )
        (ap some moved)

  abbrev pub Restarted : Kernel Q × Result RuntimeError (Unit {0}) → Type 0
  Restarted r =
      (Dict.lookup id r.0.agents ≡ some (recovered a now))
      × (((k.scheduler.capacity ≤ queue_len k.scheduler)
            × (r.1 ≡ err (scheduler_full k.scheduler.capacity))
            × (r.0.scheduler ≡ k.scheduler))
          ⊎ ((queue_len k.scheduler < k.scheduler.capacity)
              × (r.1 ≡ ok tt)
              × ((p : SchedulerEntry → Bool)
                  → queued p r.0.scheduler
                    ≡ unit (p (SchedulerEntry.new id a.priority k.scheduler.current_tick))
                      + queued p k.scheduler)))

  restart_outcome : Restarted (restart k id a now)
  unfolding restart cleared
  restart_outcome = elim (enqueue_outcome k.scheduler id a.priority) [
    | inl (full, same) ↦
        rw (done, restart, ap (λ (r : Scheduler Q × Result RuntimeError (Unit {0})). r.1) same)
          (
            found,
            inl (full, refl, ap (λ (r : Scheduler Q × Result RuntimeError (Unit {0})). r.0) same),
          )
    | inr (room, fine, longer, adds) ↦ rw (done, restart, fine) (found, inr (room, refl, adds))
  ]

  -- A known crashed agent is reset to its first state, also where the queue is full: then the call
  -- fails and the agent has no new entry. Otherwise it gets one more entry at its own priority,
  -- beside any that it already has.
  pub recover_agent_outcome : Restarted (recover_agent k id now)
  recover_agent_outcome = rw recover-restart restart_outcome

-- Any agent can crash, and a crash leaves its entries in the queue.
module _ {Q : Type 0} ⦃h : BinaryHeap Q⦄ where
  -- Whatever entries a known agent has when it crashes, its recovery adds another while the queue
  -- has room: one that was queued is then queued twice.
  pub recover_agent-duplicates :
      (k : Kernel Q) (id : String) (a : Agent) (t now : ℕ)
      → Dict.lookup id k.agents ≡ some a
      → queue_len k.scheduler < k.scheduler.capacity
      → ((recover_agent (transition_agent k id crashed t).0 id now).1 ≡ ok tt)
        × (queued (is_of id) (recover_agent (transition_agent k id crashed t).0 id now).0.scheduler
            ≡ 1 + queued (is_of id) k.scheduler)
  recover_agent-duplicates k id a t now known room =
      let (moved, found, kept_all) =
        transition_agent_moves k id a crashed t known (unfold can_transition_to in refl) in
      let same : (transition_agent k id crashed t).0.scheduler ≡ k.scheduler =
        kept_all ∙ (unfold unschedule in refl) in
      let k' = (transition_agent k id crashed t).0 in
      let (back, outcome) = recover_agent_outcome k' id (moved_to a crashed t) now found refl in
      let has_one : unit (is_of id (SchedulerEntry.new id a.priority k'.scheduler.current_tick))
          ≡ 1 =
        unfold SchedulerEntry.new in ap unit (eq_refl id) in
      elim outcome [
        | inl (full, failed, kept) ↦ absurd (
            omega (arith, ap (λ (q : Scheduler Q). q.capacity) same, ap queue_len same, full, room))
        | inr (space, fine, adds) ↦
            (fine, omega (arith, adds (is_of id), has_one, ap (queued (is_of id)) same))
      ]
