-- ===== src/Runtime/Scheduler/Order.antt =====
-- What each operation of the scheduler does to the set of queued entries.
use mathlib.Core.Option
use ughi.Prelude.{
  All, ℕ, ◌+◌, ◌≤◌, ◌<◌, ◌≡◌, ap, String, Bool, false, ◌&&◌, List, [], ◌∷◌, Option, none, some, ◌⊎◌,
  inl, inr, ok, err, count, keep, unit, leb, leb→le, ◌==◌, ◌∙◌, count-keep, count-map, arith, ltb,
  u64, Option-cases, Bool-cases, length-keep, count-le-length,
}
use ughi.Runtime.Error.{scheduler_full}
use ughi.Runtime.AgentState.{AgentPriority, rank}
use ughi.Runtime.SchedulerEntry
use ughi.Runtime.SchedulerEntry.{SchedulerEntry, is_less}
use ughi.Runtime.BinaryHeap
use ughi.Runtime.BinaryHeap.{BinaryHeap, len-push, len-from_vec}
use ughi.Runtime.Scheduler.{Scheduler, age, is_other, enqueue, dequeue, tick, remove, queue_len}

-- `f` is of lower priority than `e`, or of the same and no older.
abbrev pub NotBefore : SchedulerEntry → SchedulerEntry → Type 0
NotBefore e f =
    (rank f.effective_priority < rank e.effective_priority)
    ⊎ ((rank f.effective_priority ≡ rank e.effective_priority)
        × (e.enqueued_at_tick ≤ f.enqueued_at_tick))

not_before : (e f : SchedulerEntry) → is_less e f ≡ false → NotBefore e f
not_before e f h = ground arith

All-NotBefore :
    (e : SchedulerEntry) (es : List SchedulerEntry)
    → count (is_less e) es ≡ 0
    → All (NotBefore e) es
All-NotBefore e [] c = tt
All-NotBefore e (x ∷ es) c = elim (Bool-cases (is_less e x)) [
  | inl y ↦ absurd (omega (arith, ap unit y))
  | inr n ↦ (not_before e x n, All-NotBefore e es (omega arith))
]

module _ {Q : Type 0} ⦃h : BinaryHeap Q⦄ where
  -- The entries of a scheduler that pass a test.
  abbrev pub queued : (SchedulerEntry → Bool) → Scheduler Q → ℕ
  queued p s = count p (h.to_vec s.queue)

  pub dequeue_inv :
      (s s' : Scheduler Q) (e : SchedulerEntry)
      → dequeue s ≡ (s', some e)
      → (r : Q) × (h.pop s.queue ≡ some (e, r))
        × (s' ≡ record s { queue = r; total_scheduled = u64 (s.total_scheduled + 1) })
  unfolding dequeue
  dequeue_inv s s' e d = elim (Option-cases (h.pop s.queue)) [
    | inl n ↦ absurd (
        Option.none-ne-some e
          (ap (λ (x : Scheduler Q × Option SchedulerEntry). x.1) (rw (n, dequeue) at d)))
    | inr ((f, r), p) ↦ (r, ground arith, ground arith)
  ]

  -- `dequeue` gives an entry that no queued entry comes before, takes it out of the queue and
  -- counts it.
  pub dequeue_first :
      (s s' : Scheduler Q) (e : SchedulerEntry)
      → dequeue s ≡ (s', some e)
      → All (NotBefore e) (h.to_vec s.queue)
        × ((p : SchedulerEntry → Bool) → queued p s ≡ unit (p e) + queued p s')
        × (s'.total_scheduled ≡ u64 (s.total_scheduled + 1))
  dequeue_first s s' e d =
      let (r, p, u) = dequeue_inv s s' e d in
      (
        All-NotBefore e (h.to_vec s.queue) (h.pop_greatest s.queue r e p),
        λ t. rw u (h.count-pop t s.queue r e p),
        rw u,
      )

  -- `dequeue` finds nothing exactly when the queue is empty, and then changes nothing.
  pub dequeue_empty :
      (s : Scheduler Q) → (dequeue s).1 ≡ none → (dequeue s ≡ (s, none)) × (h.to_vec s.queue ≡ [])
  unfolding dequeue
  dequeue_empty s d = elim (Option-cases (h.pop s.queue)) [
    | inl n ↦ (rw (n, dequeue), h.pop-none s.queue n)
    | inr (r, p) ↦ absurd (Option.some-ne-none r.0 (rw (p, dequeue) at d))
  ]

  -- `enqueue` refuses exactly when the queue is at its capacity; otherwise it adds one entry, at its
  -- base priority and the current tick.
  pub enqueue_outcome :
      (s : Scheduler Q) (id : String) (priority : AgentPriority)
      → ((s.capacity ≤ queue_len s)
          × (enqueue s id priority ≡ (s, err (scheduler_full s.capacity))))
        ⊎ ((queue_len s < s.capacity)
            × ((enqueue s id priority).1 ≡ ok tt)
            × (queue_len (enqueue s id priority).0 ≡ queue_len s + 1)
            × ((p : SchedulerEntry → Bool)
                → queued p (enqueue s id priority).0
                  ≡ unit (p (SchedulerEntry.new id priority s.current_tick)) + queued p s))
  unfolding enqueue queue_len
  enqueue_outcome s id priority = elim (Bool-cases (leb s.capacity (BinaryHeap.len s.queue))) [
    | inl full ↦ inl (leb→le _ _ full, rw (full, enqueue))
    | inr room ↦ inr (
      ground arith,
      rw room,
      rw room (omega (arith, len-push (SchedulerEntry.new id priority s.current_tick) s.queue)),
      λ p. rw room (h.count-push p _ s.queue),
    )
  ]

  -- `tick` ages every entry and loses none: so says every test.
  pub queued-tick :
      (s : Scheduler Q) (p : SchedulerEntry → Bool) → queued p (tick s) ≡ queued (λ e. p (age e)) s
  unfolding tick BinaryHeap.len
  queued-tick s p = elim (Bool-cases (BinaryHeap.len s.queue == 0)) [
    | inl none_left ↦ rw none_left (
        ground (
          arith,
          count-le-length p (h.to_vec s.queue),
          count-le-length (λ (e : SchedulerEntry). p (age e)) (h.to_vec s.queue),
        ))
    | inr some_left ↦ rw some_left (h.count-from_vec p _ ∙ count-map p age (h.to_vec s.queue))
  ]

  -- `remove` takes out every entry of the agent and no other, and says whether there was one.
  pub remove_exact :
      (s : Scheduler Q) (id : String)
      → ((p : SchedulerEntry → Bool)
          → queued p (remove s id).0 ≡ queued (λ e. p e && is_other id e) s)
        × ((remove s id).1 ≡ ltb (queued (is_other id) s) (queue_len s))
  unfolding remove queue_len
  remove_exact s id = (
    λ p. h.count-from_vec p _ ∙ count-keep p (is_other id) (h.to_vec s.queue),
    rw (
      len-from_vec h (keep (is_other id) (h.to_vec s.queue)),
      length-keep (is_other id) (h.to_vec s.queue),
    ),
  )
