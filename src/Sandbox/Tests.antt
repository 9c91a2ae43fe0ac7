-- ===== src/Sandbox/Tests.antt =====
-- The capability manager and the violation tracker on concrete calls.
use ughi.Prelude.{
  ◌+◌, none, ◌≡◌, refl, str_append, str_eq, true, false, not, ◌&&◌, ◌||◌, List, [], ◌∷◌, ◌⊎◌, arith,
  any, leb,
}
use ughi.Prelude.Dict
use ughi.Sandbox.CapabilityManager.{
  CapabilityManager, CapabilityToken, default_scope, new_token, new, issue, validate, is_valid,
  tokens_at, cap_key, revoke_all, cleanup,
}
use ughi.Sandbox.CapabilityManager.Validating.{Granted, Refused, validate_outcome}
use ughi.Sandbox.CapabilityManager.Authority.{
  authorises, authorises-issue, authorises-revoke_all, authorises-cleanup,
}
use ughi.Sandbox.CapabilityManager.Collision.{issue-authorises_other}
use ughi.Sandbox.SandboxEngine
use ughi.Sandbox.SandboxEngine.{SkillInput, execute}
use ughi.Sandbox.SandboxEngine.Guards.{Executed, execute-Executed}
use ughi.Sandbox.ResourceTracker.{start, check_limits, ResourceLimits}
use ughi.Sandbox.ResourceTracker.Limits.{
  Use, takes, burns, use_all, bytes_of, units_of, Checked, check_limits-use_all,
}
use ughi.Sandbox.ViolationTracker.{is_quarantined, quarantine_threshold}
use ughi.Sandbox.ViolationTracker.Quarantine.{
  Call, registers, releases, run, strikes, is_quarantined-run,
}

abbrev stored : List CapabilityToken
stored =
    new_token "a" "web" default_scope 50 100 "t1"
    ∷ new_token "b" "web" default_scope 0 100 "t2"
    ∷ []

abbrev manager : CapabilityManager
manager = record {
  tokens = ("a:web", stored) ∷ [];
  total_issued = 2;
  total_revoked = 0;
  total_denials = 0;
}

validate_outcome_example :
    ((authorises manager "a" "web" 200 ≡ true)
      × Granted manager
          (validate manager "a" "web" 200).0
          (cap_key "a" "web")
          200
          (validate manager "a" "web" 200).1)
    ⊎ ((authorises manager "a" "web" 200 ≡ false)
        × Refused manager
            (validate manager "a" "web" 200).0
            "a"
            "web"
            200
            (validate manager "a" "web" 200).1)
validate_outcome_example = validate_outcome manager "a" "web" 200

authorises-issue_example :
    authorises (issue manager "c" "web" default_scope 50 100 "t3").0 "c" "web" 120 ≡ (
      authorises manager "c" "web" 120
      || (str_eq (cap_key "c" "web") (cap_key "c" "web")
          && is_valid 120 (issue manager "c" "web" default_scope 50 100 "t3").1))
authorises-issue_example =
    authorises-issue manager "c" "web" default_scope 50 100 "t3" "c" "web" 120

authorises-revoke_all_example :
    authorises (revoke_all manager "a") "a" "web" 120
    ≡ any
        (λ t. is_valid 120 t && not (str_eq t.agent_id "a"))
        (tokens_at (cap_key "a" "web") manager.tokens)
authorises-revoke_all_example = authorises-revoke_all manager "a" "a" "web" 120

authorises-cleanup_example :
    authorises (cleanup manager 160) "a" "web" 170 ≡ authorises manager "a" "web" 170
unfolding Dict.lookup
authorises-cleanup_example = authorises-cleanup manager "a" "web" 160 170 (refl, tt) (omega arith)

issue-authorises_other_example :
    authorises
      (issue new (str_append "a" (str_append ":" "b")) "c" default_scope 0 100 "t1").0
      "a"
      (str_append "b" (str_append ":" "c"))
      999
    ≡ true
issue-authorises_other_example = issue-authorises_other new "a" "b" "c" default_scope 100 "t1" 999

abbrev five_strikes : List Call
five_strikes =
    registers "a" "web" "fs" 9
    ∷ registers "a" "web" "fs" 8
    ∷ registers "a" "web" "fs" 7
    ∷ registers "b" "web" "fs" 6
    ∷ registers "a" "web" "fs" 5
    ∷ registers "a" "web" "fs" 4
    ∷ releases "a"
    ∷ registers "a" "web" "fs" 1
    ∷ []

is_quarantined-run_example :
    is_quarantined (run five_strikes) "a" ≡ leb quarantine_threshold (strikes "a" five_strikes)
is_quarantined-run_example = is_quarantined-run "a" five_strikes (omega arith)

abbrev small_limits : ResourceLimits
small_limits = record { max_memory_bytes = 100; max_fuel = 50; max_time_ms = 10 }

abbrev three_uses : List Use
three_uses = takes 60 ∷ burns 20 ∷ takes 60 ∷ []

check_limits-use_all_example :
    Checked small_limits 120 20 3 4
      (check_limits (use_all (start small_limits 0) three_uses) 3000000 4000000)
unfolding bytes_of units_of
check_limits-use_all_example =
    check_limits-use_all small_limits three_uses 0 3000000 4000000 (omega arith) (omega arith)

abbrev search : SkillInput
search = record { skill_name = "web_search"; agent_id = "a"; payload_size = 200 }

abbrev granted : SandboxEngine.SandboxEngine
granted = (SandboxEngine.grant SandboxEngine.new "a" "web_search" 50 100 "t1").0

execute-Executed_example : Executed granted search 120 (
    execute (λ fuel. none) (λ e. "denied") (λ x. "exceeded") granted search (λ n. 120 + n) (λ n. n))
execute-Executed_example =
    execute-Executed (λ fuel. none) (λ e. "denied") (λ x. "exceeded") granted search (λ n. 120 + n)
      (λ n. n)
