-- ===== src/Sandbox/SandboxEngine/Guards.antt =====
-- What stands behind an execution.
use ughi.Prelude.{
  ℕ, ◌+◌, ◌≤◌, ◌≡◌, refl, String, true, false, not, Option, none, Result, ok, err, ◌⊎◌, inl, inr,
  arith, u64, if_elim, Option-cases, Result-cases,
}
use ughi.Sandbox.Error.{SandboxError}
use ughi.Sandbox.CapabilityManager
use ughi.Sandbox.CapabilityManager.{CapabilityManager, CapabilityToken}
use ughi.Sandbox.CapabilityManager.Authority.{authorises}
use ughi.Sandbox.CapabilityManager.Validating.{validate_outcome}
use ughi.Sandbox.SkillRegistry
use ughi.Sandbox.ViolationTracker
use ughi.Sandbox.ResourceTracker
use ughi.Sandbox.ResourceTracker.{Excess, check_limits}
use ughi.Sandbox.SandboxEngine.{
  SandboxEngine, SkillInput, SkillOutput, execute, run_skill, track, fuel_cost, fuel_budget,
  default_fuel, block, report_violation,
}

fuel-check_limits :
    (input : SkillInput) (token : CapabilityToken) (start now later : ℕ)
    → check_limits (track input token start) now later ≡ none
    → fuel_cost input ≤ fuel_budget token
unfolding check_limits track ResourceTracker.start ResourceTracker.consume_fuel
    ResourceTracker.allocate fuel_cost fuel_budget
fuel-check_limits input token start now later c = ground arith

validate-authorises :
    (m : CapabilityManager) (agent skill : String) (now : ℕ) (t : CapabilityToken)
    → (CapabilityManager.validate m agent skill now).1 ≡ ok t
    → authorises m agent skill now ≡ true
validate-authorises m agent skill now t f = elim (validate_outcome m agent skill now) [
  | inl (held, _) ↦ held
  | inr (_, r) ↦ elim r.error [
    | inl (_, e) ↦ absurd (ground (arith, e))
    | inr (_, e) ↦ absurd (ground (arith, e))
  ]
]

-- What an execution shows: a success, its guards and its fuel, or an error that counts none.
abbrev pub Executed :
    SandboxEngine → SkillInput → ℕ → SandboxEngine × Result SandboxError SkillOutput → Type 0
Executed s input now r =
    ((out : SkillOutput) × (r.1 ≡ ok out)
      × (ViolationTracker.is_quarantined s.violations input.agent_id ≡ false)
      × (SkillRegistry.is_registered s.registry input.skill_name ≡ true)
      × (authorises s.capabilities input.agent_id input.skill_name now ≡ true)
      × (out.fuel_used ≤ out.fuel_budget)
      × (out.fuel_budget ≤ default_fuel)
      × (r.0.total_executions ≡ u64 (s.total_executions + 1))
      × (r.0.total_fuel_consumed ≡ u64 (s.total_fuel_consumed + out.fuel_used)))
    ⊎ ((e : SandboxError) × (r.1 ≡ err e)
        × (r.0.total_executions ≡ s.total_executions)
        × (r.0.total_fuel_consumed ≡ s.total_fuel_consumed))

module _ (set_fuel : ℕ → Option String) (describe : SandboxError → String)
    (report : Excess → String) where
  -- A run by a token: it either succeeds within its fuel or counts nothing.
  abbrev Ran : SandboxEngine → SandboxEngine × Result SandboxError SkillOutput → Type 0
  Ran s r =
      ((out : SkillOutput) × (r.1 ≡ ok out)
        × (out.fuel_used ≤ out.fuel_budget)
        × (out.fuel_budget ≤ default_fuel)
        × (r.0.total_executions ≡ u64 (s.total_executions + 1))
        × (r.0.total_fuel_consumed ≡ u64 (s.total_fuel_consumed + out.fuel_used)))
      ⊎ ((e : SandboxError) × (r.1 ≡ err e)
          × (r.0.total_executions ≡ s.total_executions)
          × (r.0.total_fuel_consumed ≡ s.total_fuel_consumed))

  run_skill-Ran :
      (s : SandboxEngine) (input : SkillInput) (token : CapabilityToken) (wall timer : ℕ → ℕ)
      → Ran s (run_skill set_fuel describe report s input token wall timer)
  unfolding run_skill report_violation
  run_skill-Ran s input token wall timer = elim (Option-cases (set_fuel (fuel_budget token))) [
    | inl free ↦
        elim (Option-cases (check_limits (track input token (timer 1)) (timer 2) (timer 3))) [
          | inl fits ↦
              let fuel_fits = fuel-check_limits input token (timer 1) (timer 2) (timer 3) fits in
              rw (run_skill, free, fits)
                (inl (_, refl, fuel_fits, (unfold fuel_budget in omega arith), refl, refl))
          | inr (x, over) ↦ rw (run_skill, free, over) (inr (_, refl, refl, refl))
        ]
    | inr (reason, failed) ↦ rw (run_skill, failed) (inr (_, refl, refl, refl))
  ]

  -- `execute` succeeds only for an agent that is not in quarantine, a registered skill and a live token
  -- under their key, within a fuel budget of at most ten million, and then it counts the execution and
  -- its fuel; otherwise it gives an error and counts neither.
  pub execute-Executed :
      (s : SandboxEngine) (input : SkillInput) (wall timer : ℕ → ℕ)
      → Executed s input (wall 0) (execute set_fuel describe report s input wall timer)
  unfolding execute block report_violation
  execute-Executed s input wall timer =
      if_elim (Executed s input (wall 0))
        (ViolationTracker.is_quarantined s.violations input.agent_id)
        (λ _. inr (_, refl, refl, refl))
        λ free.
          if_elim (Executed s input (wall 0))
            (not (SkillRegistry.is_registered s.registry input.skill_name))
            (λ _. inr (_, refl, refl, refl))
            λ listed.
              elim (Result-cases
                (CapabilityManager.validate s.capabilities input.agent_id input.skill_name
                  (wall 0)).1) [
                    | inr (e, f) ↦ rw f (inr (_, refl, refl, refl))
                    | inl (token, f) ↦
                        elim (run_skill-Ran
                          (record s {
                            capabilities =
                                (CapabilityManager.validate s.capabilities input.agent_id
                                  input.skill_name (wall 0)).0;
                          })
                          input token wall timer) [
                            | inl (out, done, spent, budget, runs, total) ↦ rw f (
                                inl (
                                  out,
                                  done,
                                  free,
                                  ground arith,
                                  validate-authorises s.capabilities input.agent_id input.skill_name
                                      (wall 0) token f,
                                  spent,
                                  budget,
                                  runs,
                                  total,
                                ))
                            | inr failed ↦ rw f (inr failed)
                          ]
                  ]
