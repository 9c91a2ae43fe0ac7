-- ===== src/Computer/Workflow.antt =====
-- The workflows of crates/ughi-computer/src/workflow.rs. The costs and the percentage, which are floats, are left
-- out; the JSON of a checkpoint is of a type J, and written and read by parameters.
use ughi.Prelude.{
  ℕ, zero, suc, ◌+◌, ◌%◌, String, str_append, str_eq, Bool, true, false, Option, none, some, List,
  [], ◌∷◌, ◌++◌, ltb, leb, if◌then◌else◌, u32, u64, length, count, keep, find,
}
pub mod Progress
pub mod Stopping

pub data WorkflowStatus : Type 0 where
  pending running paused checkpointed completed failed killed : WorkflowStatus

pub data ProjectPhase : Type 0 where
  research planning design coding test deploy monitor iterate : ProjectPhase

pub record WorkflowStep : Type 0 where
  pub id : ℕ
  pub name : String
  pub description : String
  pub phase : ProjectPhase
  pub status : WorkflowStatus
  pub output : Option String
  pub model_used : Option String
  pub duration_ms : ℕ
  pub retry_count : ℕ

pub record Workflow : Type 0 where
  pub id : String
  pub goal : String
  pub status : WorkflowStatus
  pub steps : List WorkflowStep
  pub current_step : ℕ
  pub created_at_ms : ℕ
  pub last_checkpoint_ms : ℕ
  pub total_duration_ms : ℕ
  pub checkpoint_path : String

unfoldable pub new : String → String → ℕ → Workflow
new id goal now = record {
  id = id;
  goal = goal;
  status = pending;
  steps = [];
  current_step = 0;
  created_at_ms = now;
  last_checkpoint_ms = 0;
  total_duration_ms = 0;
  checkpoint_path = str_append "data/workflows/" (str_append id ".checkpoint.json");
}

unfoldable pub add_step : Workflow → String → String → ProjectPhase → Workflow
add_step w name desc phase =
    let step : WorkflowStep = record {
      id = u32 (u32 (length w.steps) + 1);
      name = name;
      description = desc;
      phase = phase;
      status = pending;
      output = none;
      model_used = none;
      duration_ms = 0;
      retry_count = 0;
    } in
    record w { steps = w.steps ++ (step ∷ []) }

-- The step with this index, and a write to it.
unfoldable pub nth : ℕ → List WorkflowStep → Option WorkflowStep
nth i [] = none
nth zero (s ∷ ss) = some s
nth (suc i) (s ∷ ss) = nth i ss

unfoldable pub update_at : ℕ → (WorkflowStep → WorkflowStep) → List WorkflowStep → List WorkflowStep
update_at i f [] = []
update_at zero f (s ∷ ss) = f s ∷ ss
update_at (suc i) f (s ∷ ss) = s ∷ update_at i f ss

unfoldable pub start_step : WorkflowStep → WorkflowStep
start_step s = record s { status = running }

unfoldable pub progress : Workflow → Workflow × Option WorkflowStep
progress w =
    let started = update_at w.current_step start_step w.steps in
    if ltb w.current_step (length w.steps)
    then (record w { steps = started; status = running }, nth w.current_step started)
    else (w, none)

unfoldable pub finish_step : String → String → ℕ → WorkflowStep → WorkflowStep
finish_step output model duration_ms s = record s {
  status = completed;
  output = some output;
  model_used = some model;
  duration_ms = duration_ms;
}

unfoldable pub complete_step : Workflow → String → String → ℕ → Workflow
complete_step w output model duration_ms =
    if ltb w.current_step (length w.steps)
    then record w {
      steps = update_at w.current_step (finish_step output model duration_ms) w.steps;
      total_duration_ms = u64 (w.total_duration_ms + duration_ms);
      current_step = w.current_step + 1;
      status = if leb (length w.steps) (w.current_step + 1) then completed else w.status;
    }
    else w

-- `retry_count` is a u8.
unfoldable pub retry : WorkflowStep → ℕ
retry s = (s.retry_count + 1) % 256

unfoldable pub fail_one : String → WorkflowStep → WorkflowStep
fail_one error s =
    if leb 3 (retry s)
    then record s {
      retry_count = retry s;
      status = failed;
      output = some (str_append "FAILED after 3 retries: " error);
    }
    else record s { retry_count = retry s; status = pending }

unfoldable pub fail_step : Workflow → String → Workflow
fail_step w error = elim (nth w.current_step w.steps) [
  | none ↦ w
  | some s ↦ record w {
    steps = update_at w.current_step (fail_one error) w.steps;
    status = if leb 3 (retry s) then failed else w.status;
  }
]

unfoldable pub checkpoint : {J : Type 0} → (Workflow → J) → Workflow → ℕ → Workflow × J
checkpoint to_json w now =
    let saved = record w {
      last_checkpoint_ms = now;
      status = if ltb w.current_step (length w.steps) then checkpointed else completed;
    } in
    (saved, to_json saved)

unfoldable pub resume_from_checkpoint : {J : Type 0} → (J → Option Workflow) → J → Option Workflow
resume_from_checkpoint from_json json = elim (from_json json) [
  | none ↦ none
  | some w ↦ some (record w { status = running })
]

unfoldable pub pause : Workflow → Workflow
pause w = record w { status = paused }

unfoldable pub kill : Workflow → Workflow
kill w = record w { status = killed }

abbrev pub is_completed : WorkflowStatus → Bool
is_completed completed = true
is_completed pending = false
is_completed running = false
is_completed paused = false
is_completed checkpointed = false
is_completed failed = false
is_completed killed = false

abbrev pub done : WorkflowStep → Bool
done s = is_completed s.status

unfoldable pub completed_steps : Workflow → ℕ
completed_steps w = count done w.steps

pub record WorkflowEngine : Type 0 where
  pub workflows : List Workflow
  pub total_created : ℕ
  pub total_completed : ℕ

unfoldable pub new_engine : WorkflowEngine
new_engine = record { workflows = []; total_created = 0; total_completed = 0 }

-- `wf_id` writes a number as `wf-{:06}`.
unfoldable pub create : (ℕ → String) → WorkflowEngine → String → ℕ → WorkflowEngine × String
create wf_id e goal now =
    let total = u64 (e.total_created + 1) in
    (
      record e {
        total_created = total;
        workflows = e.workflows ++ (new (wf_id total) goal now ∷ []);
      },
      wf_id total,
    )

unfoldable pub has_id : String → Workflow → Bool
has_id id w = str_eq w.id id

unfoldable pub get : WorkflowEngine → String → Option Workflow
get e id = find (has_id id) e.workflows

-- A write through `get_mut`.
unfoldable pub write_first : String → (Workflow → Workflow) → List Workflow → List Workflow
write_first id f [] = []
write_first id f (w ∷ ws) =
    let rest = write_first id f ws in if has_id id w then f w ∷ ws else w ∷ rest

unfoldable pub get_mut : WorkflowEngine → String → (Workflow → Workflow) → WorkflowEngine
get_mut e id f = record e { workflows = write_first id f e.workflows }

unfoldable pub is_active : Workflow → Bool
is_active w = elim w.status [ running ↦ true | paused ↦ true | checkpointed ↦ true | _ ↦ false ]

unfoldable pub active : WorkflowEngine → List Workflow
active e = keep is_active e.workflows

pub record WorkflowMetrics : Type 0 where
  pub total_created : ℕ
  pub total_completed : ℕ
  pub active_now : ℕ

unfoldable pub metrics : WorkflowEngine → WorkflowMetrics
metrics e = record {
  total_created = e.total_created;
  total_completed = e.total_completed;
  active_now = u32 (length (active e));
}
