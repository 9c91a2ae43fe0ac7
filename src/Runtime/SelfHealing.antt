-- ===== src/Runtime/SelfHealing.antt =====
-- The manager `SelfHealingManager` of crates/ughi-runtime/src/healing.rs. `str::to_lowercase` is a parameter
-- of the classification; the recovery rate, a float, is left out.
use ughi.Prelude.{
  ℕ, ◌+◌, String, Bool, true, false, ◌||◌, none, some, List, [], ◌∷◌, ◌++◌, ltb, if◌then◌else◌,
  contains, u32, u64, length,
}
use ughi.Prelude.Dict
use ughi.Prelude.Dict.{Dict}
pub mod Streak
mod Tests

abbrev pub max_restarts : ℕ
max_restarts = 3

pub record CrashRecord : Type 0 where
  pub agent_id : String
  pub reason : String
  pub timestamp_ms : ℕ
  pub recovered : Bool
  pub restart_count : ℕ

pub data RootCause : Type 0 where
  memory_exceeded timeout sandbox_violation internal_error external_dependency unknown : RootCause

unfoldable pub classify : (String → String) → String → RootCause
classify to_lowercase reason =
    let r = to_lowercase reason in
    if contains r "memory" || (contains r "oom" || contains r "budget")
    then memory_exceeded
    else if contains r "timeout" || contains r "deadline"
    then timeout
    else if contains r "sandbox" || (contains r "capability" || contains r "violation")
    then sandbox_violation
    else if contains r "network" || (contains r "connection" || contains r "api")
    then external_dependency
    else if contains r "panic" || contains r "internal"
    then internal_error
    else unknown

pub data HealingAction : Type 0 where
  restart : HealingAction
  restart_with_reduced_memory : ℕ → HealingAction
  restart_with_lower_priority : HealingAction
  quarantine : HealingAction
  notify_operator : String → HealingAction

pub record SelfHealingManager : Type 0 where
  pub crash_history : Dict (List CrashRecord)
  pub restart_counts : Dict ℕ
  pub total_crashes : ℕ
  pub total_recoveries : ℕ

unfoldable pub new : SelfHealingManager
new = record { crash_history = []; restart_counts = []; total_crashes = 0; total_recoveries = 0 }

-- `entry(agent_id).or_insert(0)`
unfoldable pub restarts : SelfHealingManager → String → ℕ
restarts m agent_id = elim (Dict.lookup agent_id m.restart_counts) [ none ↦ 0 | some n ↦ n ]

unfoldable pub records : SelfHealingManager → String → List CrashRecord
records m agent_id = elim (Dict.lookup agent_id m.crash_history) [ none ↦ [] | some rs ↦ rs ]

unfoldable pub action_for : RootCause → HealingAction
action_for memory_exceeded = restart_with_reduced_memory 100
action_for timeout = restart_with_lower_priority
action_for sandbox_violation = quarantine
action_for internal_error = restart
action_for external_dependency = restart
action_for unknown = restart

unfoldable pub on_crash :
    (String → String)
    → SelfHealingManager
    → String
    → String
    → ℕ
    → SelfHealingManager × HealingAction
on_crash to_lowercase m agent_id reason now =
    let count = u32 (restarts m agent_id + 1) in
    let crash : CrashRecord = record {
      agent_id = agent_id;
      reason = reason;
      timestamp_ms = now;
      recovered = false;
      restart_count = count;
    } in
    (
      record {
        crash_history = Dict.insert agent_id (records m agent_id ++ (crash ∷ [])) m.crash_history;
        restart_counts = Dict.insert agent_id count m.restart_counts;
        total_crashes = u64 (m.total_crashes + 1);
        total_recoveries = m.total_recoveries;
      },
      if ltb max_restarts count then quarantine else action_for (classify to_lowercase reason),
    )

-- `last_mut`
unfoldable pub mark_last : List CrashRecord → List CrashRecord
mark_last [] = []
mark_last (r ∷ []) = record r { recovered = true } ∷ []
mark_last (r ∷ q ∷ rs) = r ∷ mark_last (q ∷ rs)

unfoldable pub on_recovery : SelfHealingManager → String → SelfHealingManager
on_recovery m agent_id = record {
  crash_history = Dict.adjust agent_id mark_last m.crash_history;
  restart_counts = Dict.remove agent_id m.restart_counts;
  total_crashes = m.total_crashes;
  total_recoveries = u64 (m.total_recoveries + 1);
}

unfoldable pub crash_count : SelfHealingManager → String → ℕ
crash_count m agent_id = u32 (length (records m agent_id))

unfoldable pub history : SelfHealingManager → String → List CrashRecord
history m agent_id = records m agent_id

pub record HealingMetrics : Type 0 where
  pub total_crashes : ℕ
  pub total_recoveries : ℕ
  pub agents_tracked : ℕ

unfoldable pub metrics : SelfHealingManager → HealingMetrics
metrics m = record {
  total_crashes = m.total_crashes;
  total_recoveries = m.total_recoveries;
  agents_tracked = u32 (length m.crash_history);
}
