-- ===== src/Computer/Tests.antt =====
-- Workflows on concrete calls.
use ughi.Prelude.{◌≤◌, ◌≡◌, none, List, [], ◌∷◌, arith, length}
use ughi.Computer.Workflow.{
  Workflow, WorkflowStep, new, research, coding, running, completed_steps, progress, kill, pause,
}
use ughi.Computer.Workflow.Progress.{
  Call, adds, progresses, completes, fails, kills, run, Split, run-completed,
}
use ughi.Computer.Workflow.Stopping.{progress-kill}

abbrev calls : List Call
calls =
    adds "Research" "stack" research
    ∷ adds "Code" "app" coding
    ∷ progresses
    ∷ completes "ok" "m" 5
    ∷ fails "e"
    ∷ kills
    ∷ []

run-completed_example :
    (completed_steps (run (λ w. w.goal) (new "wf-000001" "todo" 0) calls)
      ≡ (run (λ w. w.goal) (new "wf-000001" "todo" 0) calls).current_step)
    × ((run (λ w. w.goal) (new "wf-000001" "todo" 0) calls).current_step
        ≤ length (run (λ w. w.goal) (new "wf-000001" "todo" 0) calls).steps)
    × Split
        (run (λ w. w.goal) (new "wf-000001" "todo" 0) calls).current_step
        (run (λ w. w.goal) (new "wf-000001" "todo" 0) calls).steps
run-completed_example = run-completed (λ w. w.goal) "wf-000001" "todo" 0 calls

abbrev open_step : WorkflowStep
open_step = record {
  id = 1;
  name = "Code";
  description = "app";
  phase = coding;
  status = running;
  output = none;
  model_used = none;
  duration_ms = 0;
  retry_count = 0;
}

abbrev two_steps : Workflow
two_steps = record {
  id = "wf-000002";
  goal = "app";
  status = running;
  steps = open_step ∷ open_step ∷ [];
  current_step = 0;
  created_at_ms = 0;
  last_checkpoint_ms = 0;
  total_duration_ms = 0;
  checkpoint_path = "p";
}

progress-kill_example :
    (progress (kill two_steps) ≡ progress two_steps)
    × (progress (pause two_steps) ≡ progress two_steps)
    × ((progress (kill two_steps)).0.status ≡ running)
progress-kill_example = progress-kill two_steps (omega arith)
