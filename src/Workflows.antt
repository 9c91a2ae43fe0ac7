-- ===== src/Workflows.antt =====
-- The pipelines of crates/ughi-workflows/src/composer.rs. A JSON value is its text; `json` writes the output of a
-- simulated step from the name of its skill.
use ughi.Prelude.{
  ℕ, ◌+◌, String, str_eq, Bool, true, false, Option, none, some, List, [], ◌∷◌, ◌++◌, ◌==◌,
  if◌then◌else◌, u64, any, find,
}
use ughi.Prelude.Ids.{write_id}
pub mod Executing
mod Tests

pub data FailureAction : Type 0 where
  stop skip : FailureAction
  retry : ℕ → FailureAction

pub record PipelineStep : Type 0 where
  pub skill_name : String
  pub parameters : String
  pub on_failure : FailureAction
  pub timeout_ms : ℕ

pub record Pipeline : Type 0 where
  pub id : ℕ
  pub name : String
  pub description : String
  pub steps : List PipelineStep
  pub expert_persona : String
  pub run_count : ℕ
  pub success_count : ℕ

pub record StepResult : Type 0 where
  pub step_index : ℕ
  pub skill_name : String
  pub succeeded : Bool
  pub output : String
  pub execution_ms : ℕ

pub record PipelineResult : Type 0 where
  pub pipeline_id : ℕ
  pub succeeded : Bool
  pub steps : List StepResult
  pub total_ms : ℕ

pub record WorkflowComposer : Type 0 where
  pub pipelines : List Pipeline
  pub next_id : ℕ

unfoldable pub new : WorkflowComposer
new = record { pipelines = []; next_id = 1 }

unfoldable pub create : WorkflowComposer → String → String → String → WorkflowComposer × ℕ
create w name desc expert =
    let pipeline : Pipeline = record {
      id = w.next_id;
      name = name;
      description = desc;
      steps = [];
      expert_persona = expert;
      run_count = 0;
      success_count = 0;
    } in
    (
      record { pipelines = w.pipelines ++ (pipeline ∷ []); next_id = u64 (w.next_id + 1) },
      w.next_id,
    )

abbrev pub has_id : ℕ → Pipeline → Bool
has_id k p = p.id == k

unfoldable pub push_step : String → String → FailureAction → Pipeline → Pipeline
push_step skill params on_fail p =
    let step : PipelineStep = record {
      skill_name = skill;
      parameters = params;
      on_failure = on_fail;
      timeout_ms = 30000;
    } in
    record p { steps = p.steps ++ (step ∷ []) }

unfoldable pub add_step :
    WorkflowComposer → ℕ → String → String → FailureAction → WorkflowComposer × Bool
add_step w pipeline_id skill params on_fail =
    if any (has_id pipeline_id) w.pipelines
    then (
      record w {
        pipelines = write_id (λ p. p.id) pipeline_id (push_step skill params on_fail) w.pipelines;
      },
      true,
    )
    else (w, false)

unfoldable pub simulate : (String → String) → ℕ → PipelineStep → StepResult
simulate json i step = record {
  step_index = i;
  skill_name = step.skill_name;
  succeeded = true;
  output = json step.skill_name;
  execution_ms = 50;
}

-- The loop of `execute` from index i on: the results, and whether all succeeded.
unfoldable pub run_steps : (String → String) → ℕ → List PipelineStep → List StepResult × Bool
unfolding simulate
run_steps json i [] = ([], true)
run_steps json i (s ∷ ss) =
    let result = simulate json i s in
    let rest = run_steps json (i + 1) ss in
    if result.succeeded then (result ∷ rest.0, rest.1) else elim s.on_failure [
      | stop ↦ (result ∷ [], false)
      | skip ↦ (result ∷ rest.0, false)
      | retry n ↦ (result ∷ rest.0, false)
    ]

unfoldable pub total_time : List StepResult → ℕ
total_time [] = 0
total_time (r ∷ rs) = r.execution_ms + total_time rs

unfoldable pub count_run : Bool → Pipeline → Pipeline
count_run all_succeeded p = record p {
  run_count = u64 (p.run_count + 1);
  success_count = if all_succeeded then u64 (p.success_count + 1) else p.success_count;
}

unfoldable pub execute :
    (String → String) → WorkflowComposer → ℕ → WorkflowComposer × Option PipelineResult
execute json w pipeline_id = elim (find (has_id pipeline_id) w.pipelines) [
  | none ↦ (w, none)
  | some p ↦
      let done = run_steps json 0 p.steps in
      (
        record w { pipelines = write_id (λ x. x.id) pipeline_id (count_run done.1) w.pipelines },
        some (record {
          pipeline_id = pipeline_id;
          succeeded = done.1;
          steps = done.0;
          total_ms = u64 (total_time done.0);
        }),
      )
]

unfoldable pub find_name : WorkflowComposer → String → Option Pipeline
find_name w name = find (λ p. str_eq p.name name) w.pipelines

unfoldable pub load_templates : WorkflowComposer → WorkflowComposer
unfolding create add_step
load_templates w =
    let p = create w "daily-briefing" "Morning briefing workflow" "project-manager" in
    let a1 = (add_step p.0 p.1 "web_search" "{\"query\":\"today's news\"}" skip).0 in
    let a2 = (add_step a1 p.1 "memory_read_write" "{\"action\":\"read_tasks\"}" skip).0 in
    let a3 = (add_step a2 p.1 "self_critique" "{\"text\":\"summarize briefing\"}" stop).0 in
    let q = create a3 "market-research" "Automated market analysis" "researcher" in
    let b1 = (add_step q.0 q.1 "web_search" "{\"query\":\"market trends\"}" (retry 2)).0 in
    let b2 = (add_step b1 q.1 "self_critique" "{\"text\":\"analyze findings\"}" stop).0 in
    (add_step b2 q.1 "memory_read_write" "{\"action\":\"store_results\"}" skip).0
