-- ===== src/Runtime/Kernel/Rounds.antt =====
-- What one round of `scheduler_tick` does to the queue.
use ughi.Prelude.{
  ℕ, ◌+◌, ◌≤◌, ◌<◌, ◌≡◌, ap, String, str_eq, Bool, true, false, not, Option, some, inl, inr, arith,
  unit, count_ext, count-and-le, eq_refl, Option-cases, Result-cases, if_elim,
}
use ughi.Prelude.Dict
use ughi.Runtime.AgentState.{AgentState, completing}
use ughi.Runtime.Agent
use ughi.Runtime.Agent.{Agent, is_active}
use ughi.Runtime.SchedulerEntry
use ughi.Runtime.SchedulerEntry.{SchedulerEntry}
use ughi.Runtime.BinaryHeap.{BinaryHeap, len-pop}
use ughi.Runtime.Scheduler
use ughi.Runtime.Scheduler.{Scheduler, age, queue_len, is_other}
use ughi.Runtime.Scheduler.Order.{
  queued, queued-tick, enqueue_outcome, dequeue_first, dequeue_inv, remove_exact,
}
use ughi.Runtime.Scheduler.Invariant.{IsSound, tick-IsSound}
use ughi.Runtime.Kernel.{Kernel}
use ughi.Runtime.Kernel.Transitions.{transition_agent, unschedule}
use ughi.Runtime.Kernel.Ticks.{scheduler_tick, requeue}
use ughi.Runtime.Kernel.Invariant.{IsValid}

abbrev pub is_of : String → SchedulerEntry → Bool
is_of id e = str_eq e.agent_id id

is_of-age : (id : String) (e : SchedulerEntry) → is_of id (age e) ≡ is_of id e
unfolding age
is_of-age id e = ground arith

module _ {Q : Type 0} ⦃h : BinaryHeap Q⦄ (k : Kernel Q) (e : SchedulerEntry) (s : Scheduler Q)
    (runs : k.running ≡ true)
    (first : Scheduler.dequeue (Scheduler.tick k.scheduler) ≡ (s, some e)) where
  scheduler-scheduler_tick : (scheduler_tick k).scheduler ≡ requeue k.agents s (some e)
  unfolding scheduler_tick
  scheduler-scheduler_tick =
      if_elim (λ (k' : Kernel Q). k'.scheduler ≡ requeue k.agents s (some e)) (not k.running)
        (λ stopped. absurd (ground arith))
        (λ _. ap (λ (r : Scheduler Q × Option SchedulerEntry). requeue k.agents r.0 r.1) first)

  -- The room that the dequeued entry leaves.
  room_left : IsSound k.scheduler → queue_len s < s.capacity
  unfolding queue_len
  room_left v =
      let (r, p, u) = dequeue_inv (Scheduler.tick k.scheduler) s e first in
      rw u (
        omega (
          arith,
          len-pop (Scheduler.tick k.scheduler).queue r e p,
          (tick-IsSound k.scheduler v).bounded,
        ))

  -- On a valid running kernel, a round ages every entry, takes out the first and, its agent being
  -- active, puts the agent back with its raised priority as the base and the current tick; nothing
  -- else changes in the queue.
  pub scheduler_tick-rotates :
      (a : Agent)
      → IsValid k
      → Dict.lookup e.agent_id k.agents ≡ some a
      → is_active a ≡ true
      → (p : SchedulerEntry → Bool)
      → queued p (scheduler_tick k).scheduler + unit (p e)
        ≡ queued (λ x. p (age x)) k.scheduler
          + unit (p (SchedulerEntry.new e.agent_id e.effective_priority s.current_tick))
  unfolding requeue
  scheduler_tick-rotates a v known active p =
      rw (scheduler-scheduler_tick, known, requeue, active)
        (elim (enqueue_outcome s e.agent_id e.effective_priority) [
          | inl (full, same) ↦ absurd (omega (arith, room_left v.queue, full))
          | inr (room, done, longer, adds) ↦ omega (
            arith,
            adds p,
            (dequeue_first (Scheduler.tick k.scheduler) s e first).1 p,
            queued-tick k.scheduler p,
          )
        ])

  -- If the agent of the first entry of a running kernel is known and not active, the entry is not
  -- put back: an agent that waits to start falls out of the queue.
  pub scheduler_tick-drops :
      (a : Agent)
      → Dict.lookup e.agent_id k.agents ≡ some a
      → is_active a ≡ false
      → (p : SchedulerEntry → Bool)
      → queued p (scheduler_tick k).scheduler + unit (p e) ≡ queued (λ x. p (age x)) k.scheduler
  unfolding requeue
  scheduler_tick-drops a known idle p =
      rw (scheduler-scheduler_tick, known, requeue, idle)
        (omega (
          arith,
          (dequeue_first (Scheduler.tick k.scheduler) s e first).1 p,
          queued-tick k.scheduler p,
        ))

-- A move of an agent adds no entry to the queue.
module _ {Q : Type 0} ⦃h : BinaryHeap Q⦄ where
  unschedule-le :
      (t : AgentState) (id : String) (q : Scheduler Q) (p : SchedulerEntry → Bool)
      → queued p (unschedule t id q) ≤ queued p q
  unfolding unschedule
  unschedule-le completing id q p =
      omega (arith, (remove_exact q id).0 p, count-and-le p (is_other id) (h.to_vec q.queue))
  unschedule-le _ id q p = omega arith

  transition_agent-le :
      (k : Kernel Q) (id : String) (t : AgentState) (now : ℕ) (p : SchedulerEntry → Bool)
      → queued p (transition_agent k id t now).0.scheduler ≤ queued p k.scheduler
  unfolding transition_agent
  transition_agent-le k id t now p = elim (Option-cases (Dict.lookup id k.agents)) [
    | inl n ↦ rw (n, transition_agent) (omega arith)
    | inr (a, f) ↦ elim (Result-cases (Agent.transition a t now).1) [
      | inl (u, r) ↦ rw (f, r, transition_agent) (unschedule-le t id k.scheduler p)
      | inr (x, r) ↦ rw (f, r, transition_agent) (omega arith)
    ]
  ]

  -- Once the round of a running kernel has dequeued the only entry of a known agent that was not
  -- active, a transition does not put the agent back in the queue.
  pub transition_agent-lost :
      (k : Kernel Q) (e : SchedulerEntry) (s : Scheduler Q) (a : Agent) (t : AgentState) (now : ℕ)
      → k.running ≡ true
      → Scheduler.dequeue (Scheduler.tick k.scheduler) ≡ (s, some e)
      → Dict.lookup e.agent_id k.agents ≡ some a
      → is_active a ≡ false
      → queued (is_of e.agent_id) k.scheduler ≡ 1
      → queued (is_of e.agent_id) (transition_agent (scheduler_tick k) e.agent_id t now).0.scheduler
        ≡ 0
  transition_agent-lost k e s a t now runs first known idle one = omega (
    arith,
    transition_agent-le (scheduler_tick k) e.agent_id t now (is_of e.agent_id),
    scheduler_tick-drops k e s runs first a known idle (is_of e.agent_id),
    ap unit (eq_refl e.agent_id),
    count_ext (λ (x : SchedulerEntry). is_of e.agent_id (age x)) (is_of e.agent_id)
        (h.to_vec k.scheduler.queue) (is_of-age e.agent_id),
    one,
  )
