-- ===== src/Runtime/Agent.antt =====
-- `Agent`, its configuration and its snapshot, of crates/ughi-runtime/src/agent.rs. An `Instant` is a
-- number of nanoseconds and an argument; so is the id that nanoid makes.
pub mod History
use ughi.Prelude.{
  ℕ, ◌+◌, ◌-◌, ◌/◌, String, str_eq, Bool, true, false, not, Option, none, some, List, [], ◌∷◌, ◌++◌,
  Result, ok, err, if◌then◌else◌, u64, any, length,
}
use mathlib.Core.Option.{get_or}
use ughi.Runtime.Error.{RuntimeError, invalid_transition}
use ughi.Runtime.AgentMemoryTracker
use ughi.Runtime.AgentMemoryTracker.{AgentMemoryTracker}
use ughi.Runtime.AgentState.{
  AgentState, AgentPriority, spawned, completing, crashed, can_transition_to, as_str,
  default_priority,
}

pub record AgentMemoryModel : Type 0 where
  pub short_term_limit_bytes : ℕ
  pub long_term_limit_bytes : ℕ
  pub peak_limit_bytes : ℕ
  pub current_usage_bytes : ℕ

abbrev pub default_peak_limit : ℕ
default_peak_limit = 146800640

-- `AgentMemoryModel::default`: 40 MB, 15 MB and 140 MB.
unfoldable pub default_memory_model : AgentMemoryModel
default_memory_model = record {
  short_term_limit_bytes = 41943040;
  long_term_limit_bytes = 15728640;
  peak_limit_bytes = 146800640;
  current_usage_bytes = 0;
}

pub record AgentConfig : Type 0 where
  pub goal : String
  pub parent_id : Option String
  pub priority : AgentPriority
  pub peak_memory_limit : Option ℕ

-- `AgentConfig::new`, `with_parent`, `with_priority`
unfoldable pub new_config : String → AgentConfig
new_config goal = record {
  goal = goal;
  parent_id = none;
  priority = default_priority;
  peak_memory_limit = none;
}

unfoldable pub with_parent : AgentConfig → String → AgentConfig
with_parent c parent_id = record c { parent_id = some parent_id }

unfoldable pub with_priority : AgentConfig → AgentPriority → AgentConfig
with_priority c priority = record c { priority = priority }

pub record Agent : Type 0 where
  pub id : String
  pub goal : String
  pub parent_id : Option String
  pub state : AgentState
  pub priority : AgentPriority
  pub memory_model : AgentMemoryModel
  pub memory_tracker : AgentMemoryTracker
  pub capabilities : List String
  pub created_at : ℕ
  pub last_active : ℕ
  pub transition_count : ℕ

unfoldable pub new : AgentConfig → String → ℕ → Agent
unfolding default_memory_model AgentMemoryTracker.new
new config id now = record {
  id = id;
  goal = config.goal;
  parent_id = config.parent_id;
  state = spawned;
  priority = config.priority;
  memory_model = default_memory_model;
  memory_tracker = AgentMemoryTracker.new (get_or config.peak_memory_limit default_peak_limit);
  capabilities = [];
  created_at = now;
  last_active = now;
  transition_count = 0;
}

unfoldable pub transition : Agent → AgentState → ℕ → Agent × Result RuntimeError (Unit {0})
transition a new_state now =
    if not (can_transition_to a.state new_state)
    then (a, err (invalid_transition a.id (as_str a.state) (as_str new_state)))
    else (
      record a {
        state = new_state;
        last_active = now;
        transition_count = u64 (a.transition_count + 1);
      },
      ok tt,
    )

-- `elapsed`, which is 0 for an instant in the future.
unfoldable pub uptime : Agent → ℕ → ℕ
uptime a now = now - a.created_at

unfoldable pub idle_time : Agent → ℕ → ℕ
idle_time a now = now - a.last_active

unfoldable pub is_done : Agent → Bool
is_done a = elim a.state [ completing ↦ true | crashed ↦ true | _ ↦ false ]

unfoldable pub is_active : Agent → Bool
is_active a = elim a.state [ spawned ↦ false | completing ↦ false | crashed ↦ false | _ ↦ true ]

unfoldable pub memory_usage : Agent → ℕ
memory_usage a = a.memory_tracker.current_bytes

unfoldable pub has_capability : Agent → String → Bool
has_capability a capability = any (λ c. str_eq c capability) a.capabilities

unfoldable pub grant_capability : Agent → String → Agent
unfolding has_capability
grant_capability a capability =
    if has_capability a capability
    then a
    else record a { capabilities = a.capabilities ++ capability ∷ [] }

pub record AgentSnapshot : Type 0 where
  pub id : String
  pub goal : String
  pub state : AgentState
  pub priority : AgentPriority
  pub parent_id : Option String
  pub memory_usage_bytes : ℕ
  pub memory_peak_limit_bytes : ℕ
  pub capabilities_count : ℕ
  pub transition_count : ℕ
  pub uptime_ms : ℕ
  pub idle_time_ms : ℕ

-- `as_millis() as u64`
abbrev pub as_millis : ℕ → ℕ
as_millis nanos = u64 (nanos / 1000000)

unfoldable pub from_agent : Agent → ℕ → ℕ → AgentSnapshot
unfolding memory_usage uptime idle_time
from_agent a now later = record {
  id = a.id;
  goal = a.goal;
  state = a.state;
  priority = a.priority;
  parent_id = a.parent_id;
  memory_usage_bytes = memory_usage a;
  memory_peak_limit_bytes = a.memory_model.peak_limit_bytes;
  capabilities_count = length a.capabilities;
  transition_count = a.transition_count;
  uptime_ms = as_millis (uptime a now);
  idle_time_ms = as_millis (idle_time a later);
}
