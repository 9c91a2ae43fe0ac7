-- ===== src/Computer/Workflow/Stopping.antt =====
-- What ends a workflow, and what does not.
use ughi.Prelude.{
  String, ℕ, zero, suc, ◌+◌, ◌<◌, ◌≡◌, refl, sym, ap, ◌∙◌, inl, inr, true, Option, some, List, [],
  ◌∷◌, arith, Bool-cases, ltb, leb, if◌then◌else◌, length,
}
use ughi.Computer.Workflow.{
  Workflow, WorkflowStep, WorkflowStatus, nth, update_at, finish_step, fail_one, retry, progress,
  complete_step, fail_step, checkpoint, resume_from_checkpoint, pause, kill, pending, completed,
  running, failed,
}

length-update_at :
    (i : ℕ) (f : WorkflowStep → WorkflowStep) (ss : List WorkflowStep)
    → length (update_at i f ss) ≡ length ss
unfolding update_at
length-update_at i f [] = refl
length-update_at zero f (s ∷ ss) = refl
length-update_at (suc i) f (s ∷ ss) = omega (arith, length-update_at i f ss)

nth-update_at :
    (i : ℕ) (f : WorkflowStep → WorkflowStep) (ss : List WorkflowStep) (s : WorkflowStep)
    → nth i ss ≡ some s
    → nth i (update_at i f ss) ≡ some (f s)
unfolding nth update_at
nth-update_at i f [] s h = absurd (ground arith)
nth-update_at zero f (x ∷ ss) s h = ground arith
nth-update_at (suc i) f (x ∷ ss) s h = nth-update_at i f ss s h

-- The results of the steps in turn: output, model and duration.
unfoldable pub complete_all : Workflow → List (String × String × ℕ) → Workflow
complete_all w [] = w
complete_all w (r ∷ rs) = complete_all (complete_step w r.0 r.1 r.2) rs

complete_once :
    (w : Workflow) (output model : String) (duration_ms : ℕ)
    → w.current_step < length w.steps
    → ((complete_step w output model duration_ms).current_step ≡ w.current_step + 1)
      × (length (complete_step w output model duration_ms).steps ≡ length w.steps)
      × ((complete_step w output model duration_ms).status
          ≡ (if leb (length w.steps) (w.current_step + 1) then completed else w.status))
unfolding complete_step
complete_once w output model duration_ms l =
    let open_step : ltb w.current_step (length w.steps) ≡ true = ground arith in
    rw (complete_step, open_step)
      (refl, length-update_at w.current_step (finish_step output model duration_ms) w.steps, refl)

-- As many completions as there are steps left, and there are some, complete the workflow, in whatever state
-- it was.
pub complete_all_lem :
    (w : Workflow) (rs : List (String × String × ℕ))
    → w.current_step + length rs ≡ length w.steps
    → 0 < length rs
    → ((complete_all w rs).status ≡ completed)
      × ((complete_all w rs).current_step ≡ length (complete_all w rs).steps)
unfolding complete_all
complete_all_lem w [] h l = absurd (omega arith)
complete_all_lem w (r ∷ []) h l =
    let once = complete_once w r.0 r.1 r.2 (omega (arith, h)) in
    let last_one : leb (length w.steps) (w.current_step + 1) ≡ true = ground (arith, h) in
    (once.2 ∙ rw last_one refl, omega (arith, once.0, once.1, h))
complete_all_lem w (r ∷ q ∷ rs) h l =
    let once = complete_once w r.0 r.1 r.2 (omega (arith, h)) in
    complete_all_lem (complete_step w r.0 r.1 r.2) (q ∷ rs) (omega (arith, once.0, once.1, h))
      (omega arith)

unfoldable pub fail_times : ℕ → Workflow → String → Workflow
fail_times zero w error = w
fail_times (suc n) w error = fail_step (fail_times n w error) error

-- The current step after n failures of a step that has not failed before.
record Failed (n : ℕ) (w v : Workflow) : Type 0 where
  at : v.current_step ≡ w.current_step
  now : WorkflowStep
  stands : nth v.current_step v.steps ≡ some now
  tries : now.retry_count ≡ n
  of_step : 0 < n → now.status ≡ (if leb 3 n then failed else pending)
  of_all : v.status ≡ (if leb 3 n then failed else w.status)

status_again :
    (n : ℕ) (old now : WorkflowStatus)
    → now ≡ (if leb 3 n then failed else old)
    → (if leb 3 (suc n) then failed else now) ≡ (if leb 3 (suc n) then failed else old)
status_again n old now h = ground (arith, h)

fail_one_lem :
    (s : WorkflowStep) (n : ℕ) (error : String)
    → s.retry_count ≡ n
    → suc n < 256
    → ((fail_one error s).retry_count ≡ suc n)
      × ((fail_one error s).status ≡ (if leb 3 (suc n) then failed else pending))
unfolding fail_one retry
fail_one_lem s n error z b =
    let tries : retry s ≡ suc n = omega (arith, z, b) in
    elim (Bool-cases (leb 3 (suc n))) [
      | inl e ↦ rw (fail_one, tries, e) (refl, refl)
      | inr e ↦ rw (fail_one, tries, e) (refl, refl)
    ]

fail_step_lem :
    (v : Workflow) (s : WorkflowStep) (n : ℕ) (error : String)
    → nth v.current_step v.steps ≡ some s
    → s.retry_count ≡ n
    → suc n < 256
    → ((fail_step v error).current_step ≡ v.current_step)
      × (nth (fail_step v error).current_step (fail_step v error).steps ≡ some (fail_one error s))
      × ((fail_step v error).status ≡ (if leb 3 (suc n) then failed else v.status))
unfolding fail_step retry
fail_step_lem v s n error g z b =
    let tries : retry s ≡ suc n = omega (arith, z, b) in
    rw (fail_step, g)
      (
        refl,
        nth-update_at v.current_step (fail_one error) v.steps s g,
        ap (λ k. if leb 3 k then failed else v.status) tries,
      )

Failed-fail_times :
    (n : ℕ) (w : Workflow) (s : WorkflowStep) (error : String)
    → nth w.current_step w.steps ≡ some s
    → s.retry_count ≡ 0
    → n < 256
    → Failed n w (fail_times n w error)
unfolding fail_times
Failed-fail_times zero w s error g z b = record {
  at = refl;
  now = s;
  stands = g;
  tries = z;
  of_step = λ p. absurd (omega arith);
  of_all = refl;
}
Failed-fail_times (suc n) w s error g z b =
    let past = Failed-fail_times n w s error g z (omega arith) in
    let next = fail_step_lem (fail_times n w error) past.now n error past.stands past.tries b in
    let one = fail_one_lem past.now n error past.tries b in
    record {
      at = next.0 ∙ past.at;
      now = fail_one error past.now;
      stands = next.1;
      tries = one.0;
      of_step = λ p. one.1;
      of_all = next.2 ∙ status_again n w.status (fail_times n w error).status past.of_all;
    }

-- A step that has not failed yet waits for a retry after one and two failures in a row; after three or more,
-- up to 255, the step and the workflow are failed; the current step stays.
pub fail_times_lem :
    (n : ℕ) (w : Workflow) (s : WorkflowStep) (error : String)
    → nth w.current_step w.steps ≡ some s
    → s.retry_count ≡ 0
    → 0 < n
    → n < 256
    → (failed_step : WorkflowStep) × (nth w.current_step (fail_times n w error).steps
        ≡ some failed_step)
      × (failed_step.status ≡ (if leb 3 n then failed else pending))
      × ((fail_times n w error).status ≡ (if leb 3 n then failed else w.status))
      × ((fail_times n w error).current_step ≡ w.current_step)
fail_times_lem n w s error g z l b =
    let f = Failed-fail_times n w s error g z b in
    (
      f.now,
      ap (λ i. nth i (fail_times n w error).steps) (sym f.at) ∙ f.stands,
      f.of_step l,
      f.of_all,
      f.at,
    )

-- A killed or paused workflow with a step left goes on with the next `progress` as if it had been neither.
pub progress-kill :
    (w : Workflow)
    → w.current_step < length w.steps
    → (progress (kill w) ≡ progress w)
      × (progress (pause w) ≡ progress w)
      × ((progress (kill w)).0.status ≡ running)
unfolding progress kill pause
progress-kill w l = ground arith

-- If the JSON of a workflow reads back, a checkpoint resumes with the steps and the place of the workflow, and as
-- running, also when it was completed, failed or killed.
pub resume_from_checkpoint-checkpoint :
    {J : Type 0} (to_json : Workflow → J) (from_json : J → Option Workflow) (w : Workflow) (now : ℕ)
    → ((v : Workflow) → from_json (to_json v) ≡ some v)
    → resume_from_checkpoint from_json (checkpoint to_json w now).1
      ≡ some (record w { last_checkpoint_ms = now; status = running })
unfolding resume_from_checkpoint checkpoint
resume_from_checkpoint-checkpoint to_json from_json w now reads =
    rw (resume_from_checkpoint, reads (checkpoint to_json w now).0) refl
