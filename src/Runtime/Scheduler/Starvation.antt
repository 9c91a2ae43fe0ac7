-- ===== src/Runtime/Scheduler/Starvation.antt =====
-- Starvation prevention: where the entries of an agent stand after any calls of the scheduler.
use ughi.Prelude.{
  ℕ, ◌+◌, ◌*◌, ◌/◌, ◌%◌, ◌≤◌, ◌≡◌, ◌∙◌, refl, String, str_eq, Bool, true, false, not, ◌&&◌, min,
  List, [], ◌∷◌, count, leb, arith, unit, inl, inr, subst, Bool-cases, Option-cases, count-and-le,
}
use ughi.Runtime.AgentState.{AgentPriority, rank}
use ughi.Runtime.SchedulerEntry
use ughi.Runtime.SchedulerEntry.{SchedulerEntry}
use ughi.Runtime.BinaryHeap.{BinaryHeap}
use ughi.Runtime.Scheduler.{Scheduler, age, new, enqueue, dequeue, tick, remove, is_other}
use ughi.Runtime.Scheduler.Order.{queued, queued-tick, enqueue_outcome, remove_exact}
use ughi.Runtime.Scheduler.Aging.{age_step, has_overwaited, is_below_critical, rank-le}
use ughi.Runtime.Scheduler.Invariant.{
  IsSound, new-IsSound, enqueue-IsSound, dequeue-IsSound, tick-IsSound, remove-IsSound,
}

pub data Call : Type 0 where
  enqueues : String → AgentPriority → Call
  dequeues : Call
  removes : String → Call
  ticks : Call

abbrev pub is_tick : Call → Bool
is_tick (enqueues id priority) = false
is_tick dequeues = false
is_tick (removes id) = false
is_tick ticks = true

abbrev pub enqueues_for : String → Call → Bool
enqueues_for a (enqueues id priority) = str_eq id a
enqueues_for a dequeues = false
enqueues_for a (removes id) = false
enqueues_for a ticks = false

-- An entry of the agent that is not yet critical.
abbrev pub is_waiting : String → SchedulerEntry → Bool
is_waiting a e = str_eq e.agent_id a && is_below_critical e

-- What n ticks should have made of a priority and a count of waits.
abbrev is_late : ℕ → ℕ → ℕ → Bool
is_late n rank waited = not (leb waited 5 && leb (min 24 n) (6 * rank + waited))

late_waits : (n r w : ℕ) → is_late n r w ≡ false → w ≤ 5
late_waits n r w h = ground arith

late_step :
    (n r w r' w' : ℕ)
    → r ≤ 4
    → is_late n r w ≡ false
    → w' ≡ (w + 1) % 6
    → r' ≡ min 4 (r + (w + 1) / 6)
    → is_late (n + 1) r' w' ≡ false
late_step n r w r' w' l h a b = ground arith

-- An entry of the agent that n ticks should have brought further.
abbrev is_behind : String → ℕ → SchedulerEntry → Bool
is_behind a n e = str_eq e.agent_id a && is_late n (rank e.effective_priority) e.wait_ticks

age-agent_id : (e : SchedulerEntry) → (age e).agent_id ≡ e.agent_id
unfolding age
age-agent_id e = ground arith

behind-age :
    (a : String) (n : ℕ) (e : SchedulerEntry)
    → is_behind a n e ≡ false
    → is_behind a (n + 1) (age e) ≡ false
behind-age a n e h = elim (Bool-cases (str_eq e.agent_id a)) [
  | inr other ↦ rw (age-agent_id e, other) refl
  | inl own ↦
      let late : is_late n (rank e.effective_priority) e.wait_ticks ≡ false = rw own at h in
      let step = age_step e (late_waits n (rank e.effective_priority) e.wait_ticks late) in
      rw (age-agent_id e, own)
        (late_step n (rank e.effective_priority) e.wait_ticks _ _ (rank-le e.effective_priority)
          late step.0 step.1)
]

behind_later :
    (a : String) (e : SchedulerEntry) → has_overwaited e ≡ false → is_behind a 0 e ≡ false
behind_later a e h = ground arith

behind_top :
    (a : String) (n : ℕ) (e : SchedulerEntry)
    → 24 ≤ n
    → is_behind a n e ≡ false
    → is_waiting a e ≡ false
behind_top a n e l h = ground arith

not_counted : (b : Bool) (n : ℕ) → unit b + n ≡ 0 → b ≡ false
not_counted b n h = ground arith

count_imp :
    (p q : SchedulerEntry → Bool) (es : List SchedulerEntry)
    → ((e : SchedulerEntry) → p e ≡ false → q e ≡ false)
    → count p es ≡ 0
    → count q es ≡ 0
count_imp p q [] f c = refl
count_imp p q (e ∷ es) f c =
    rw (f e (ground arith)) (omega (arith, count_imp p q es f (omega arith)))

module _ {Q : Type 0} ⦃h : BinaryHeap Q⦄ where
  unfoldable pub step : Scheduler Q → Call → Scheduler Q
  step s (enqueues id priority) = (enqueue s id priority).0
  step s dequeues = (dequeue s).0
  step s (removes id) = (remove s id).0
  step s ticks = tick s

  unfoldable pub run : Scheduler Q → List Call → Scheduler Q
  run s [] = s
  run s (c ∷ cs) = run (step s c) cs

  step-IsSound : (s : Scheduler Q) (c : Call) → IsSound s → IsSound (step s c)
  unfolding step
  step-IsSound s (enqueues id priority) v = enqueue-IsSound s id priority v
  step-IsSound s dequeues v = dequeue-IsSound s v
  step-IsSound s (removes id) v = remove-IsSound s id v
  step-IsSound s ticks v = tick-IsSound s v

  run-IsSound : (s : Scheduler Q) (cs : List Call) → IsSound s → IsSound (run s cs)
  unfolding run
  run-IsSound s [] v = v
  run-IsSound s (c ∷ cs) v = run-IsSound (step s c) cs (step-IsSound s c v)

  behind-dequeue :
      (s : Scheduler Q) (p : SchedulerEntry → Bool) → queued p (dequeue s).0 ≤ queued p s
  unfolding dequeue
  behind-dequeue s p = elim (Option-cases (h.pop s.queue)) [
    | inl n ↦ rw (n, dequeue) (omega arith)
    | inr ((e, r), q) ↦ rw (q, dequeue) (omega (arith, h.count-pop p s.queue r e q))
  ]

  behind-enqueue :
      (s : Scheduler Q) (a id : String) (priority : AgentPriority) (n : ℕ)
      → str_eq id a ≡ false
      → queued (is_behind a n) (enqueue s id priority).0 ≡ queued (is_behind a n) s
  unfolding SchedulerEntry.new
  behind-enqueue s a id priority n other = elim (enqueue_outcome s id priority) [
    | inl (full, e) ↦ rw e refl
    | inr (room, done, longer, adds) ↦ adds (is_behind a n) ∙ rw other (omega arith)
  ]

  -- What n ticks and the calls of a list make of the entries of an agent that it does not enqueue.
  behind-run :
      (a : String) (n m : ℕ) (s : Scheduler Q) (cs : List Call)
      → n + count is_tick cs ≡ m
      → count (enqueues_for a) cs ≡ 0
      → queued (is_behind a n) s ≡ 0
      → queued (is_behind a m) (run s cs) ≡ 0
  unfolding run step
  behind-run a n m s [] t c b =
      let same : n ≡ m = omega (arith, t) in subst (λ k. queued (is_behind a k) s ≡ 0) same b
  behind-run a n m s (enqueues id priority ∷ cs) t c b =
      behind-run a n m (enqueue s id priority).0 cs (omega (arith, t)) (omega (arith, c))
        (behind-enqueue s a id priority n (not_counted (str_eq id a) _ c) ∙ b)
  behind-run a n m s (dequeues ∷ cs) t c b =
      behind-run a n m (dequeue s).0 cs (omega (arith, t)) (omega (arith, c))
        (omega (arith, behind-dequeue s (is_behind a n), b))
  behind-run a n m s (removes id ∷ cs) t c b =
      behind-run a n m (remove s id).0 cs (omega (arith, t)) (omega (arith, c)) (
        omega (
          arith,
          (remove_exact s id).0 (is_behind a n),
          count-and-le (is_behind a n) (is_other id) (h.to_vec s.queue),
          b,
        ))
  behind-run a n m s (ticks ∷ cs) t c b =
      behind-run a (n + 1) m (tick s) cs (omega (arith, t)) (omega (arith, c)) (
        queued-tick s (is_behind a (n + 1))
        ∙ count_imp (is_behind a n) (λ e. is_behind a (n + 1) (age e)) (h.to_vec s.queue)
            (behind-age a n) b)

module _ {Q : Type 0} (h : BinaryHeap Q) where
  -- After any calls on a new scheduler, and then any calls with 24 ticks or more among them that do
  -- not enqueue the agent again, every entry of the agent that is still queued is of the highest
  -- priority.
  pub no_starvation :
      (capacity : ℕ) (before after : List Call) (a : String)
      → count (enqueues_for a) after ≡ 0
      → 24 ≤ count is_tick after
      → queued ⦃h = h⦄
          (is_waiting a)
          (run ⦃h = h⦄ (run ⦃h = h⦄ (new ⦃h = h⦄ capacity) before) after)
        ≡ 0
  no_starvation capacity before after a others enough =
      let start = run ⦃h = h⦄ (new ⦃h = h⦄ capacity) before in
      let sound = run-IsSound ⦃h = h⦄ (new ⦃h = h⦄ capacity) before (new-IsSound h capacity) in
      let fresh =
        count_imp has_overwaited (is_behind a 0) (h.to_vec start.queue) (behind_later a)
          sound.waits in
      count_imp (is_behind a (count is_tick after)) (is_waiting a) _
        (λ e. behind_top a (count is_tick after) e enough)
        (behind-run ⦃h = h⦄ a 0 (count is_tick after) start after (omega arith) others fresh)
