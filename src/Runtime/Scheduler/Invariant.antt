-- ===== src/Runtime/Scheduler/Invariant.antt =====
-- What holds of a scheduler between two calls.
use ughi.Prelude.{
  ℕ, ◌≤◌, ◌≡◌, ◌∙◌, refl, String, true, false, inl, inr, count_none, count-and-le, count_all, arith,
  count-le-length, sym, Option-cases,
}
use ughi.Runtime.AgentState.{AgentPriority}
use ughi.Runtime.SchedulerEntry
use ughi.Runtime.SchedulerEntry.{SchedulerEntry}
use ughi.Runtime.BinaryHeap
use ughi.Runtime.BinaryHeap.{BinaryHeap, len-empty, len-pop}
use ughi.Runtime.Scheduler.{
  Scheduler, new, age, is_other, enqueue, dequeue, tick, remove, queue_len,
}
use ughi.Runtime.Scheduler.Order.{queued, queued-tick, enqueue_outcome, remove_exact}
use ughi.Runtime.Scheduler.Aging.{has_overwaited}

age_fits : (e : SchedulerEntry) → has_overwaited (age e) ≡ false
unfolding age
age_fits e = ground arith

module _ {Q : Type 0} ⦃h : BinaryHeap Q⦄ where
  -- No operation changes the capacity.
  pub capacity-enqueue :
      (s : Scheduler Q) (id : String) (priority : AgentPriority)
      → (enqueue s id priority).0.capacity ≡ s.capacity
  unfolding enqueue
  capacity-enqueue s id priority = ground arith

  pub capacity-dequeue : (s : Scheduler Q) → (dequeue s).0.capacity ≡ s.capacity
  unfolding dequeue
  capacity-dequeue s = ground arith

  pub capacity-tick : (s : Scheduler Q) → (tick s).capacity ≡ s.capacity
  unfolding tick
  capacity-tick s = ground arith

  pub capacity-remove : (s : Scheduler Q) (id : String) → (remove s id).0.capacity ≡ s.capacity
  unfolding remove
  capacity-remove s id = refl

  -- The queue is within its capacity, and nobody has waited past the threshold.
  pub record IsSound (s : Scheduler Q) : Type 0 where
    pub bounded : queue_len s ≤ s.capacity
    pub waits : queued has_overwaited s ≡ 0

  len-queued : (s : Scheduler Q) → queue_len s ≡ queued (λ _. true) s
  unfolding queue_len BinaryHeap.len
  len-queued s = sym (count_all (h.to_vec s.queue))

  pub enqueue-IsSound :
      (s : Scheduler Q) (id : String) (priority : AgentPriority)
      → IsSound s
      → IsSound (enqueue s id priority).0
  unfolding SchedulerEntry.new
  enqueue-IsSound s id priority v = elim (enqueue_outcome s id priority) [
    | inl (full, e) ↦ rw e v
    | inr (room, done, longer, adds) ↦ record {
      bounded = rw (capacity-enqueue s id priority, longer) (omega arith);
      waits = omega (arith, adds has_overwaited, v.waits);
    }
  ]

  pub dequeue-IsSound : (s : Scheduler Q) → IsSound s → IsSound (dequeue s).0
  unfolding dequeue queue_len
  dequeue-IsSound s v = elim (Option-cases (h.pop s.queue)) [
    | inl n ↦ rw (n, dequeue) v
    | inr ((e, r), p) ↦
        rw (p, dequeue)
          (record {
            bounded = omega (arith, len-pop s.queue r e p, v.bounded);
            waits = omega (arith, h.count-pop has_overwaited s.queue r e p, v.waits);
          })
  ]

  pub tick-IsSound : (s : Scheduler Q) → IsSound s → IsSound (tick s)
  tick-IsSound s v = record {
    bounded =
        rw (len-queued (tick s), queued-tick s (λ _. true), capacity-tick s)
          (rw len-queued at v.bounded);
    waits = queued-tick s has_overwaited ∙ count_none _ (h.to_vec s.queue) age_fits;
  }

  pub remove-IsSound : (s : Scheduler Q) (id : String) → IsSound s → IsSound (remove s id).0
  remove-IsSound s id v =
      let exact = (remove_exact s id).0 in
      record {
        bounded =
            rw (len-queued (remove s id).0, exact (λ _. true), capacity-remove s id)
              (omega (
                arith,
                count-le-length (is_other id) (h.to_vec s.queue),
                v.bounded,
                len-queued s,
                count_all (h.to_vec s.queue),
              ));
        waits = omega (
          arith,
          exact has_overwaited,
          count-and-le has_overwaited (is_other id) (h.to_vec s.queue),
          v.waits,
        );
      }

module _ {Q : Type 0} (h : BinaryHeap Q) where
  pub new-IsSound : (capacity : ℕ) → IsSound ⦃h = h⦄ (new ⦃h = h⦄ capacity)
  unfolding new queue_len
  new-IsSound capacity = record {
    bounded = rw (len-empty h) (omega arith);
    waits = rw h.to_vec-empty;
  }
