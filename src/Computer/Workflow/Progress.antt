-- ===== src/Computer/Workflow/Progress.antt =====
-- What a workflow's progress says of its steps, over any calls.
use ughi.Prelude.{
  String, ℕ, zero, suc, ◌≤◌, ◌<◌, ◌≡◌, refl, ◌∙◌, subst, ltb→lt, inl, inr, true, false, List, [],
  ◌∷◌, ◌++◌, arith, Bool-cases, Option-cases, ltb, leb, length, count, count-append,
}
use ughi.Computer.Workflow.{
  Workflow, WorkflowStep, ProjectPhase, new, add_step, nth, update_at, start_step, finish_step,
  fail_one, retry, progress, complete_step, fail_step, checkpoint, pause, kill, done,
  completed_steps,
}

pub data Call : Type 0 where
  adds : String → String → ProjectPhase → Call
  progresses : Call
  completes : String → String → ℕ → Call
  fails : String → Call
  checkpoints : ℕ → Call
  pauses : Call
  kills : Call

module _ (to_json : Workflow → String) where
  unfoldable pub step : Workflow → Call → Workflow
  step w (adds name desc phase) = add_step w name desc phase
  step w progresses = (progress w).0
  step w (completes output model duration_ms) = complete_step w output model duration_ms
  step w (fails error) = fail_step w error
  step w (checkpoints now) = (checkpoint to_json w now).0
  step w pauses = pause w
  step w kills = kill w

  unfoldable pub run : Workflow → List Call → Workflow
  run w [] = w
  run w (c ∷ cs) = run (step w c) cs

-- The steps before the current one are completed, and no other.
abbrev pub Split : ℕ → List WorkflowStep → Type 0
Split zero ss = count done ss ≡ 0
Split (suc n) [] = ⊥
Split (suc n) (s ∷ ss) = (done s ≡ true) × Split n ss

Split-count : (n : ℕ) (ss : List WorkflowStep) → Split n ss → count done ss ≡ n
Split-count zero ss h = h
Split-count (suc n) [] h = absurd h
Split-count (suc n) (s ∷ ss) h = rw h.0 (omega (arith, Split-count n ss h.1))

Split-length : (n : ℕ) (ss : List WorkflowStep) → Split n ss → n ≤ length ss
Split-length zero ss h = omega arith
Split-length (suc n) [] h = absurd h
Split-length (suc n) (s ∷ ss) h = omega (arith, Split-length n ss h.1)

Split-append :
    (n : ℕ) (ss : List WorkflowStep) (s : WorkflowStep)
    → done s ≡ false
    → Split n ss
    → Split n (ss ++ (s ∷ []))
Split-append zero ss s d h = count-append done ss (s ∷ []) ∙ rw (h, d) refl
Split-append (suc n) [] s d h = absurd h
Split-append (suc n) (x ∷ ss) s d h = (h.0, Split-append n ss s d h.1)

-- A write that leaves the current step open, and one that ends it.
Split-update_at :
    (n : ℕ) (f : WorkflowStep → WorkflowStep) (ss : List WorkflowStep)
    → ((s : WorkflowStep) → done (f s) ≡ false)
    → Split n ss
    → Split n (update_at n f ss)
unfolding update_at
Split-update_at zero f [] d h = h
Split-update_at zero f (s ∷ ss) d h = rw (d s) (ground (arith, h))
Split-update_at (suc n) f [] d h = absurd h
Split-update_at (suc n) f (s ∷ ss) d h = (h.0, Split-update_at n f ss d h.1)

Split-finish :
    (n : ℕ) (f : WorkflowStep → WorkflowStep) (ss : List WorkflowStep)
    → ((s : WorkflowStep) → done (f s) ≡ true)
    → n < length ss
    → Split n ss
    → Split (suc n) (update_at n f ss)
unfolding update_at
Split-finish zero f [] d l h = absurd (omega arith)
Split-finish zero f (s ∷ ss) d l h = (d s, ground (arith, h))
Split-finish (suc n) f [] d l h = absurd h
Split-finish (suc n) f (s ∷ ss) d l h = (h.0, Split-finish n f ss d (omega arith) h.1)

done-fail_one : (error : String) (s : WorkflowStep) → done (fail_one error s) ≡ false
unfolding fail_one
done-fail_one error s = elim (Bool-cases (leb 3 (retry s))) [
  | inl e ↦ rw (fail_one, e) refl
  | inr e ↦ rw (fail_one, e) refl
]

abbrev IsSplit : Workflow → Type 0
IsSplit w = Split w.current_step w.steps

complete-IsSplit :
    (w : Workflow) (output model : String) (duration_ms : ℕ)
    → IsSplit w
    → IsSplit (complete_step w output model duration_ms)
unfolding complete_step finish_step
complete-IsSplit w output model duration_ms h =
    elim (Bool-cases (ltb w.current_step (length w.steps))) [
      | inr l ↦ rw (complete_step, l) h
      | inl l ↦
          rw (complete_step, l)
            (subst
              (λ n.
                Split n (update_at w.current_step (finish_step output model duration_ms) w.steps))
              {x = suc w.current_step} (omega arith)
              (Split-finish w.current_step (finish_step output model duration_ms) w.steps
                (λ s. refl) (ltb→lt w.current_step (length w.steps) l) h))
    ]

fail-IsSplit : (w : Workflow) (error : String) → IsSplit w → IsSplit (fail_step w error)
unfolding fail_step
fail-IsSplit w error h = elim (Option-cases (nth w.current_step w.steps)) [
  | inl g ↦ rw (fail_step, g) h
  | inr (s, g) ↦
      rw (fail_step, g)
        (Split-update_at w.current_step (fail_one error) w.steps (done-fail_one error) h)
]

progress-IsSplit : (w : Workflow) → IsSplit w → IsSplit (progress w).0
unfolding progress start_step
progress-IsSplit w h = elim (Bool-cases (ltb w.current_step (length w.steps))) [
  | inr l ↦ rw (progress, l) h
  | inl l ↦ rw (progress, l) (Split-update_at w.current_step start_step w.steps (λ s. refl) h)
]

step-IsSplit :
    (to_json : Workflow → String) (w : Workflow) (c : Call) → IsSplit w → IsSplit (step to_json w c)
unfolding step add_step checkpoint pause kill
step-IsSplit to_json w (adds name desc phase) h = Split-append w.current_step w.steps _ refl h
step-IsSplit to_json w progresses h = progress-IsSplit w h
step-IsSplit to_json w (completes output model duration_ms) h =
    complete-IsSplit w output model duration_ms h
step-IsSplit to_json w (fails error) h = fail-IsSplit w error h
step-IsSplit to_json w (checkpoints now) h = h
step-IsSplit to_json w pauses h = h
step-IsSplit to_json w kills h = h

run-IsSplit :
    (to_json : Workflow → String) (w : Workflow) (cs : List Call)
    → IsSplit w
    → IsSplit (run to_json w cs)
unfolding run
run-IsSplit to_json w [] h = h
run-IsSplit to_json w (c ∷ cs) h =
    run-IsSplit to_json (step to_json w c) cs (step-IsSplit to_json w c h)

new-IsSplit : (id goal : String) (now : ℕ) → IsSplit (new id goal now)
unfolding new
new-IsSplit id goal now = refl

-- After any calls on a new workflow, the index of the current step is the number of completed steps and at
-- most the number of steps, the steps before it are completed, and no other is.
pub run-completed :
    (to_json : Workflow → String) (id goal : String) (now : ℕ) (cs : List Call)
    → (completed_steps (run to_json (new id goal now) cs)
        ≡ (run to_json (new id goal now) cs).current_step)
      × ((run to_json (new id goal now) cs).current_step
          ≤ length (run to_json (new id goal now) cs).steps)
      × Split
          (run to_json (new id goal now) cs).current_step
          (run to_json (new id goal now) cs).steps
unfolding completed_steps
run-completed to_json id goal now cs =
    let w = run to_json (new id goal now) cs in
    let split = run-IsSplit to_json (new id goal now) cs (new-IsSplit id goal now) in
    (Split-count w.current_step w.steps split, Split-length w.current_step w.steps split, split)
