-- ===== src/Runtime/ResourceGovernor.antt =====
-- The resource governor of crates/ughi-runtime/src/hibernation.rs. The encryption of a state
-- (`encrypt_state`, `decrypt_state`) is called by none of these operations and is not modelled.
use ughi.Prelude.{
  ℕ, ◌+◌, ◌-◌, String, Bool, true, false, Option, none, some, List, [], map, ltb, leb,
  if◌then◌else◌, u32, u64, length,
}
use ughi.Prelude.Dict
use ughi.Prelude.Dict.{Dict}
pub mod Limits

abbrev default_max_concurrent : ℕ
default_max_concurrent = 64

pub record HibernatedState : Type 0 where
  pub agent_id : String
  pub goal : String
  pub expert_persona_id : String
  pub priority : ℕ
  pub transition_count : ℕ
  pub memory_keys : List String
  pub capabilities : List String
  pub hibernated_at_ms : ℕ
  pub total_active_ms : ℕ

pub record ResourceGovernor : Type 0 where
  pub max_concurrent : ℕ
  pub active_count : ℕ
  pub total_created : ℕ
  pub hibernated : Dict HibernatedState
  pub total_hibernations : ℕ
  pub total_resumes : ℕ

unfoldable pub new : ResourceGovernor
new = record {
  max_concurrent = default_max_concurrent;
  active_count = 0;
  total_created = 0;
  hibernated = [];
  total_hibernations = 0;
  total_resumes = 0;
}

unfoldable pub with_limit : ℕ → ResourceGovernor
unfolding new
with_limit max_concurrent = record new { max_concurrent = max_concurrent }

unfoldable pub can_spawn : ResourceGovernor → Bool
can_spawn g = ltb g.active_count g.max_concurrent

unfoldable pub register_active : ResourceGovernor → ResourceGovernor × Bool
register_active g = if leb g.max_concurrent g.active_count then (g, false) else (
  record g { active_count = u32 (g.active_count + 1); total_created = u64 (g.total_created + 1) },
  true,
)

unfoldable pub hibernate : ResourceGovernor → HibernatedState → ResourceGovernor
hibernate g state = record g {
  hibernated = Dict.insert state.agent_id state g.hibernated;
  active_count = g.active_count - 1;
  total_hibernations = u64 (g.total_hibernations + 1);
}

unfoldable pub resume : ResourceGovernor → String → ResourceGovernor × Option HibernatedState
resume g agent_id = elim (Dict.lookup agent_id g.hibernated) [
  | none ↦ (g, none)
  | some state ↦
      let removed = record g { hibernated = Dict.remove agent_id g.hibernated } in
      if leb removed.max_concurrent removed.active_count
      then (record removed { hibernated = Dict.insert agent_id state removed.hibernated }, none)
      else (
        record removed {
          active_count = u32 (removed.active_count + 1);
          total_resumes = u64 (removed.total_resumes + 1);
        },
        some state,
      )
]

unfoldable pub remove_active : ResourceGovernor → ResourceGovernor
remove_active g = record g { active_count = g.active_count - 1 }

unfoldable pub total : ResourceGovernor → ℕ
total g = u64 (g.active_count + length g.hibernated)

unfoldable pub hibernated_count : ResourceGovernor → ℕ
hibernated_count g = length g.hibernated

unfoldable pub hibernated_ids : ResourceGovernor → List String
hibernated_ids g = map (λ e. e.0) g.hibernated

pub record GovernorMetrics : Type 0 where
  pub active_agents : ℕ
  pub max_concurrent : ℕ
  pub hibernated_agents : ℕ
  pub total_created : ℕ
  pub total_hibernations : ℕ
  pub total_resumes : ℕ

unfoldable pub metrics : ResourceGovernor → GovernorMetrics
metrics g = record {
  active_agents = g.active_count;
  max_concurrent = g.max_concurrent;
  hibernated_agents = u32 (length g.hibernated);
  total_created = g.total_created;
  total_hibernations = g.total_hibernations;
  total_resumes = g.total_resumes;
}
