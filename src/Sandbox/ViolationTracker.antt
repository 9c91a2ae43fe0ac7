-- ===== src/Sandbox/ViolationTracker.antt =====
-- The violation tracker of crates/ughi-wasm/src/violation.rs.
use ughi.Prelude.{
  ℕ, ◌+◌, String, Bool, true, false, none, some, List, [], ◌∷◌, ◌++◌, leb, if◌then◌else◌, u32, u64,
  length,
}
use ughi.Prelude.Dict
use ughi.Prelude.Dict.{Dict}
pub mod Quarantine

abbrev pub quarantine_threshold : ℕ
quarantine_threshold = 5

pub record Violation : Type 0 where
  pub agent_id : String
  pub skill : String
  pub reason : String
  pub timestamp_ms : ℕ

pub record ViolationTracker : Type 0 where
  pub violations : Dict (List Violation)
  pub quarantined : Dict ℕ
  pub total_violations : ℕ

unfoldable pub new : ViolationTracker
new = record { violations = []; quarantined = []; total_violations = 0 }

unfoldable pub agent_violations : ViolationTracker → String → List Violation
agent_violations t id = elim (Dict.lookup id t.violations) [ none ↦ [] | some v ↦ v ]

-- `record`; `now` is the clock.
unfoldable pub register : ViolationTracker → String → String → String → ℕ → ViolationTracker × Bool
register t agent_id skill reason now =
    let violation : Violation = record {
      agent_id = agent_id;
      skill = skill;
      reason = reason;
      timestamp_ms = now;
    } in
    let history = agent_violations t agent_id ++ (violation ∷ []) in
    let t1 = record t {
      total_violations = u64 (t.total_violations + 1);
      violations = Dict.insert agent_id history t.violations;
    } in
    if leb quarantine_threshold (u32 (length history))
    then (record t1 { quarantined = Dict.insert agent_id now t1.quarantined }, true)
    else (t1, false)

unfoldable pub is_quarantined : ViolationTracker → String → Bool
is_quarantined t id = Dict.contains_key id t.quarantined

unfoldable pub release : ViolationTracker → String → ViolationTracker
release t id = record t {
  quarantined = Dict.remove id t.quarantined;
  violations = Dict.remove id t.violations;
}

unfoldable pub agent_violation_count : ViolationTracker → String → ℕ
agent_violation_count t id = u32 (length (agent_violations t id))

pub record ViolationMetrics : Type 0 where
  pub total_violations : ℕ
  pub quarantined_agents : ℕ
  pub agents_with_violations : ℕ

unfoldable pub metrics : ViolationTracker → ViolationMetrics
metrics t = record {
  total_violations = t.total_violations;
  quarantined_agents = u32 (length t.quarantined);
  agents_with_violations = u32 (length t.violations);
}
