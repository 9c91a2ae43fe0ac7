-- ===== src/Workflows/Executing.antt =====
-- What an execution reports.
use ughi.Prelude.{
  String, ℕ, suc, ◌+◌, ◌*◌, ◌≡◌, refl, ap, ◌∙◌, Bool, true, some, List, [], ◌∷◌, arith, inl, inr,
  Bool-cases, length, find, u64, ◌==◌,
}
use mathlib.Core.Option
use ughi.Prelude.Ids.{write_id}
use ughi.Workflows.{
  WorkflowComposer, Pipeline, PipelineStep, PipelineResult, has_id, simulate, run_steps, total_time,
  count_run, execute,
}

run_steps_lem :
    (json : String → String) (i : ℕ) (ss : List PipelineStep)
    → ((run_steps json i ss).1 ≡ true)
      × (length (run_steps json i ss).0 ≡ length ss)
      × (total_time (run_steps json i ss).0 ≡ 50 * length ss)
unfolding run_steps simulate total_time
run_steps_lem json i [] = (refl, refl, refl)
run_steps_lem json i (s ∷ ss) =
    let rest = run_steps_lem json (i + 1) ss in (rest.0, ap suc rest.1, omega (arith, rest.2))

find-count_run :
    (k : ℕ) (b : Bool) (ps : List Pipeline) (p : Pipeline)
    → find (has_id k) ps ≡ some p
    → find (has_id k) (write_id (λ x. x.id) k (count_run b) ps) ≡ some (count_run b p)
unfolding write_id count_run
find-count_run k b [] p h = absurd (ground (arith, h))
find-count_run k b (x ∷ ps) p h = elim (Bool-cases (x.id == k)) [
  | inl e ↦ rw (write_id, e) (rw e (ap (Option.map (count_run b)) (rw e at h)))
  | inr e ↦ rw (write_id, e) (rw e (find-count_run k b ps p (rw e at h)))
]

-- Every execution of a known pipeline succeeds, with a result and 50 milliseconds for each of its steps, whatever
-- they do on a failure, and counts one run and one success.
pub execute_succeeds :
    (json : String → String) (w : WorkflowComposer) (k : ℕ) (p : Pipeline)
    → find (has_id k) w.pipelines ≡ some p
    → (r : PipelineResult) × ((execute json w k).1 ≡ some r)
      × (r.succeeded ≡ true)
      × (length r.steps ≡ length p.steps)
      × (r.total_ms ≡ u64 (50 * length p.steps))
      × (find (has_id k) (execute json w k).0.pipelines ≡ some (count_run true p))
unfolding execute
execute_succeeds json w k p g =
    let ran = run_steps_lem json 0 p.steps in
    (
      record {
        pipeline_id = k;
        succeeded = (run_steps json 0 p.steps).1;
        steps = (run_steps json 0 p.steps).0;
        total_ms = u64 (total_time (run_steps json 0 p.steps).0);
      },
      rw (execute, g) refl,
      ran.0,
      ran.1,
      ap u64 ran.2,
      rw (execute, g)
          (find-count_run k (run_steps json 0 p.steps).1 w.pipelines p g
            ∙ ap (λ b. some (count_run b p)) ran.0),
    )
