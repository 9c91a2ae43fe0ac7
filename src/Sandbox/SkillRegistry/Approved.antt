-- ===== src/Sandbox/SkillRegistry/Approved.antt =====
-- What holds of every skill that the registry gives out.
use ughi.Prelude.{
  ◌≤◌, ◌≡◌, subst, String, str_eq, eq_iff, Bool, true, false, List, [], ◌∷◌, some, arith, All,
  Bool-cases, inl, inr,
}
use mathlib.Core.Option
use ughi.Prelude.Dict
use ughi.Prelude.Dict.{Dict}
use ughi.Sandbox.CapabilityManager.{default_scope}
use ughi.Sandbox.SkillRegistry.{
  SkillDefinition, new, get, browser_control, code_executor, web_search, file_system,
  memory_read_write, messaging, scheduler, self_critique, collaboration_vote, terminal_command,
}

abbrev pub needs_hosts : List String → Bool
needs_hosts [] = false
needs_hosts (h ∷ hs) = true

-- The limits of a call: 45 MB, 420 ms cold and 80 ms hot. The scope that comes with the skill keeps
-- to the limits of the skill.
pub record IsApproved (name : String) (s : SkillDefinition) : Type 0 where
  pub named : s.name ≡ name
  pub memory : s.max_memory_bytes ≤ 47185920
  pub cold : s.cold_latency_ms ≤ 420
  pub hot : s.hot_latency_ms ≤ 80
  pub granted_memory : s.default_scope.max_memory_bytes ≡ s.max_memory_bytes
  pub granted_time : s.default_scope.max_time_ms ≡ s.cold_latency_ms
  pub granted_hosts : needs_hosts s.default_scope.allowed_hosts ≡ s.needs_network
  pub risk : (1 ≤ s.risk_level) × (s.risk_level ≤ 5)

All-lookup_entry :
    (P : String → SkillDefinition → Type 0) (k : String) (s : SkillDefinition)
    (d : Dict SkillDefinition)
    → All (λ e. P e.0 e.1) d
    → Dict.lookup k d ≡ some s
    → P k s
unfolding Dict.lookup
All-lookup_entry P k s [] a e = absurd (Option.none-ne-some s e)
All-lookup_entry P k s ((j, r) ∷ d) a e = elim (Bool-cases (str_eq j k)) [
  | inl h ↦
      subst (λ z. P z s) (ground (arith, eq_iff j k))
        (subst (λ z. P j z) (Option.some-injective r s (rw h at e)) a.0)
  | inr h ↦ All-lookup_entry P k s d a.1 (rw h at e)
]

approved : All (λ e. IsApproved e.0 e.1) new.skills
unfolding new browser_control code_executor web_search file_system memory_read_write messaging
    scheduler self_critique collaboration_vote terminal_command default_scope
approved = ground arith

-- Every skill that the registry gives for a name has that name, keeps to the limits of a call, and
-- comes with a scope of its own memory and time that reaches hosts exactly if it needs the network.
pub get-IsApproved :
    (name : String) (s : SkillDefinition) → get new name ≡ some s → IsApproved name s
unfolding get
get-IsApproved name s found = All-lookup_entry IsApproved name s new.skills approved found
