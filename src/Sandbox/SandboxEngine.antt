-- ===== src/Sandbox/SandboxEngine.antt =====
-- The engine of crates/ughi-wasm/src/sandbox.rs: what it asks before it runs a skill, and what it
-- counts. wasmtime's `set_fuel` is a parameter that gives the text of its error, and so are the
-- texts of errors and reports. A payload is its length as JSON.
use ughi.Prelude.{
  ℕ, ◌+◌, ◌-◌, ◌*◌, ◌/◌, min, max, String, str_append, not, Option, none, some, Result, ok, err,
  if◌then◌else◌, u64,
}
use mathlib.Core.Option.{get_or}
use ughi.Sandbox.Error.{SandboxError, skill_not_registered, agent_quarantined, resource_exceeded}
use ughi.Sandbox.CapabilityManager
use ughi.Sandbox.CapabilityManager.{CapabilityManager, CapabilityScope, CapabilityToken}
use ughi.Sandbox.SkillRegistry
use ughi.Sandbox.SkillRegistry.{SkillRegistry}
use ughi.Sandbox.ViolationTracker
use ughi.Sandbox.ViolationTracker.{ViolationTracker}
use ughi.Sandbox.ResourceTracker
use ughi.Sandbox.ResourceTracker.{ResourceTracker, ResourceUsage, Excess}
pub mod Guards

abbrev pub default_fuel : ℕ
default_fuel = 10000000

pub record SkillInput : Type 0 where
  pub skill_name : String
  pub agent_id : String
  pub payload_size : ℕ

-- The numbers of the result, without the text that is made of them.
pub record SkillOutput : Type 0 where
  pub fuel_used : ℕ
  pub fuel_budget : ℕ
  pub resource_usage : ResourceUsage
  pub latency_ms : ℕ

pub record SandboxEngine : Type 0 where
  pub capabilities : CapabilityManager
  pub registry : SkillRegistry
  pub violations : ViolationTracker
  pub total_executions : ℕ
  pub total_blocked : ℕ
  pub total_fuel_consumed : ℕ

-- wasmtime's engine starts.
unfoldable pub new : SandboxEngine
new = record {
  capabilities = CapabilityManager.new;
  registry = SkillRegistry.new;
  violations = ViolationTracker.new;
  total_executions = 0;
  total_blocked = 0;
  total_fuel_consumed = 0;
}

-- `now` and `id` are those of the token.
unfoldable pub grant_with_scope :
    SandboxEngine
    → String
    → String
    → CapabilityScope
    → ℕ
    → ℕ
    → String
    → SandboxEngine × Result SandboxError (Unit {0})
grant_with_scope s agent_id skill_name scope ttl_ms now id =
    if not (SkillRegistry.is_registered s.registry skill_name)
    then (s, err (skill_not_registered skill_name))
    else (
      record s {
        capabilities =
            (CapabilityManager.issue s.capabilities agent_id skill_name scope ttl_ms now id).0;
      },
      ok tt,
    )

unfoldable pub grant :
    SandboxEngine
    → String
    → String
    → ℕ
    → ℕ
    → String
    → SandboxEngine × Result SandboxError (Unit {0})
unfolding grant_with_scope
grant s agent_id skill_name ttl_ms now id =
    grant_with_scope s agent_id skill_name
      (get_or (SkillRegistry.scope_of s.registry skill_name) CapabilityManager.default_scope) ttl_ms
      now id

unfoldable pub block : SandboxEngine → SandboxEngine
block s = record s { total_blocked = u64 (s.total_blocked + 1) }

unfoldable pub report_violation : SandboxEngine → SkillInput → String → ℕ → SandboxEngine
report_violation s input reason now = record s {
  violations =
      (ViolationTracker.register s.violations input.agent_id input.skill_name reason now).0;
}

unfoldable pub fuel_cost : SkillInput → ℕ
fuel_cost input = max (u64 (input.payload_size * 10)) 1000

unfoldable pub fuel_budget : CapabilityToken → ℕ
fuel_budget token = min (token.scope.max_memory_bytes / 45) default_fuel

-- The tracker after the payload and the fuel are counted.
unfoldable pub track : SkillInput → CapabilityToken → ℕ → ResourceTracker
track input token now =
    let started =
      ResourceTracker.start
        (record {
          max_memory_bytes = token.scope.max_memory_bytes;
          max_fuel = fuel_budget token;
          max_time_ms = token.scope.max_time_ms;
        })
        now in
    (ResourceTracker.consume_fuel (ResourceTracker.allocate started input.payload_size).0
      (fuel_cost input)).0

unfoldable pub revoke_all : SandboxEngine → String → SandboxEngine
revoke_all s agent_id = record s {
  capabilities = CapabilityManager.revoke_all s.capabilities agent_id;
}

unfoldable pub release_quarantine : SandboxEngine → String → SandboxEngine
release_quarantine s agent_id = record s {
  violations = ViolationTracker.release s.violations agent_id;
}

module _ (set_fuel : ℕ → Option String) (describe : SandboxError → String)
    (report : Excess → String) where
  -- The steps 4 to 7 of `execute`. `wall` reads the wall clock and `timer` the monotonic one.
  unfoldable pub run_skill :
      SandboxEngine
      → SkillInput
      → CapabilityToken
      → (ℕ → ℕ)
      → (ℕ → ℕ)
      → SandboxEngine × Result SandboxError SkillOutput
  run_skill s input token wall timer = elim (set_fuel (fuel_budget token)) [
    | some reason ↦
        (s, err (resource_exceeded (str_append "fuel setup failed: " reason) 0 (fuel_budget token)))
    | none ↦
        let tracker = track input token (timer 1) in
        elim (ResourceTracker.check_limits tracker (timer 2) (timer 3)) [
          | some x ↦
              (report_violation s input (report x) (wall 1), err (resource_exceeded (report x) 0 0))
          | none ↦ (
            record s {
              total_executions = u64 (s.total_executions + 1);
              total_fuel_consumed = u64 (s.total_fuel_consumed + fuel_cost input);
            },
            ok (record {
              fuel_used = fuel_cost input;
              fuel_budget = fuel_budget token;
              resource_usage = ResourceTracker.usage tracker (timer 5);
              latency_ms = u64 ((timer 4 - timer 0) / 1000000);
            }),
          )
        ]
  ]

  unfoldable pub execute :
      SandboxEngine
      → SkillInput
      → (ℕ → ℕ)
      → (ℕ → ℕ)
      → SandboxEngine × Result SandboxError SkillOutput
  unfolding run_skill
  execute s input wall timer =
      if ViolationTracker.is_quarantined s.violations input.agent_id
      then (
        block s,
        err (
            agent_quarantined input.agent_id
              (ViolationTracker.agent_violation_count s.violations input.agent_id)),
      )
      else if not (SkillRegistry.is_registered s.registry input.skill_name)
      then (
        report_violation (block s) input "unregistered skill" (wall 1),
        err (skill_not_registered input.skill_name),
      )
      else (let (capabilities, found) =
            CapabilityManager.validate s.capabilities input.agent_id input.skill_name (wall 0) in
          let s1 = record s { capabilities = capabilities } in
          elim found [
            | err e ↦ (
              report_violation (block s1) input (str_append "capability denied: " (describe e))
                  (wall 1),
              err e,
            )
            | ok token ↦ run_skill s1 input token wall timer
          ])
