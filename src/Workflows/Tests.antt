-- ===== src/Workflows/Tests.antt =====
-- The composer on its own templates.
use ughi.Prelude.{String, ◌≡◌, refl, some, [], ◌∷◌, find}
use ughi.Prelude.Ids.{write_id}
use ughi.Workflows.{
  Pipeline, PipelineStep, FailureAction, stop, retry, skip, new, create, add_step, push_step,
  load_templates, has_id,
}

abbrev at_step : String → String → FailureAction → PipelineStep
at_step skill_name parameters on_failure = record {
  skill_name = skill_name;
  parameters = parameters;
  on_failure = on_failure;
  timeout_ms = 30000;
}

abbrev market_research : Pipeline
market_research = record {
  id = 2;
  name = "market-research";
  description = "Automated market analysis";
  steps =
      at_step "web_search" "{\"query\":\"market trends\"}" (retry 2)
      ∷ at_step "self_critique" "{\"text\":\"analyze findings\"}" stop
      ∷ at_step "memory_read_write" "{\"action\":\"store_results\"}" skip
      ∷ [];
  expert_persona = "researcher";
  run_count = 0;
  success_count = 0;
}

loaded : find (has_id 2) (load_templates new).pipelines ≡ some market_research
unfolding load_templates new create add_step push_step write_id
loaded = refl
