-- ===== src/Sandbox/CapabilityManager.antt =====
-- The capability manager of crates/ughi-wasm/src/capability.rs. The id of a new token, which the
-- source hashes from the clock and the names, is an argument of `issue`.
use ughi.Prelude.{
  ℕ, ◌+◌, String, str_append, str_eq, Bool, true, false, not, ◌&&◌, ◌||◌, Option, none, some, List,
  [], ◌∷◌, ◌++◌, map, ltb, leb, ◌==◌, if◌then◌else◌, u32, u64, count, keep, any, find, concat,
  Result, ok, err,
}
use ughi.Prelude.Dict
use ughi.Prelude.Dict.{Dict, values}
use ughi.Prelude.Dict.Retain.{map_values, retain}
use ughi.Sandbox.Error.{SandboxError, capability_denied, capability_expired}
pub mod Authority
pub mod Validating
pub mod Collision

pub record CapabilityScope : Type 0 where
  pub allowed_paths : List String
  pub allowed_hosts : List String
  pub max_memory_bytes : ℕ
  pub max_time_ms : ℕ
  pub can_spawn : Bool
  pub read_only : Bool

unfoldable pub default_scope : CapabilityScope
default_scope = record {
  allowed_paths = [];
  allowed_hosts = [];
  max_memory_bytes = 47185920;
  max_time_ms = 420;
  can_spawn = false;
  read_only = true;
}

pub record CapabilityToken : Type 0 where
  pub id : String
  pub agent_id : String
  pub skill_name : String
  pub expires_at : ℕ
  pub issued_at : ℕ
  pub scope : CapabilityScope
  pub revoked : Bool

unfoldable pub is_valid : ℕ → CapabilityToken → Bool
is_valid now t = not t.revoked && (t.expires_at == 0 || ltb now t.expires_at)

unfoldable pub is_expired : ℕ → CapabilityToken → Bool
is_expired now t = ltb 0 t.expires_at && leb t.expires_at now

pub record CapabilityManager : Type 0 where
  pub tokens : Dict (List CapabilityToken)
  pub total_issued : ℕ
  pub total_revoked : ℕ
  pub total_denials : ℕ

unfoldable pub new : CapabilityManager
new = record { tokens = []; total_issued = 0; total_revoked = 0; total_denials = 0 }

unfoldable pub cap_key : String → String → String
cap_key agent_id skill_name = str_append agent_id (str_append ":" skill_name)

unfoldable pub tokens_at : String → Dict (List CapabilityToken) → List CapabilityToken
tokens_at key d = elim (Dict.lookup key d) [ none ↦ [] | some ts ↦ ts ]

unfoldable pub new_token : String → String → CapabilityScope → ℕ → ℕ → String → CapabilityToken
new_token agent_id skill_name scope ttl_ms now id = record {
  id = id;
  agent_id = agent_id;
  skill_name = skill_name;
  expires_at = if ltb 0 ttl_ms then u64 (now + ttl_ms) else 0;
  issued_at = now;
  scope = scope;
  revoked = false;
}

unfoldable pub issue :
    CapabilityManager
    → String
    → String
    → CapabilityScope
    → ℕ
    → ℕ
    → String
    → CapabilityManager × CapabilityToken
issue m agent_id skill_name scope ttl_ms now id =
    let token = new_token agent_id skill_name scope ttl_ms now id in
    let key = cap_key agent_id skill_name in
    (
      record m {
        total_issued = u64 (m.total_issued + 1);
        tokens = Dict.insert key (tokens_at key m.tokens ++ (token ∷ [])) m.tokens;
      },
      token,
    )

unfoldable pub denied : CapabilityManager → CapabilityManager
denied m = record m { total_denials = u64 (m.total_denials + 1) }

unfoldable pub validate :
    CapabilityManager
    → String
    → String
    → ℕ
    → CapabilityManager × Result SandboxError CapabilityToken
validate m agent_id skill_name now = elim (Dict.lookup (cap_key agent_id skill_name) m.tokens) [
  | none ↦ (denied m, err (capability_denied agent_id skill_name))
  | some tokens ↦ elim (find (is_valid now) tokens) [
    | some token ↦ (m, ok token)
    | none ↦ (
      denied m,
      if any (is_expired now) tokens
          then err (capability_expired agent_id skill_name)
          else err (capability_denied agent_id skill_name),
    )
  ]
]

unfoldable pub revoke : CapabilityToken → CapabilityToken
revoke t = record t { revoked = true }

-- The first token of a list that has the id, revoked.
unfoldable pub revoke_in : String → List CapabilityToken → Option (List CapabilityToken)
revoke_in id [] = none
revoke_in id (t ∷ ts) =
    let rest = revoke_in id ts in
    if str_eq t.id id
    then some (revoke t ∷ ts)
    else elim rest [ none ↦ none | some us ↦ some (t ∷ us) ]

-- The lists are tried one after the other.
unfoldable pub revoke_among :
    String → Dict (List CapabilityToken) → Option (Dict (List CapabilityToken))
revoke_among id [] = none
revoke_among id ((key, ts) ∷ d) =
    let rest = revoke_among id d in
    elim (revoke_in id ts) [
      | some us ↦ some ((key, us) ∷ d)
      | none ↦ elim rest [ none ↦ none | some e ↦ some ((key, ts) ∷ e) ]
    ]

unfoldable pub revoke_token : CapabilityManager → String → CapabilityManager × Bool
revoke_token m token_id = elim (revoke_among token_id m.tokens) [
  | none ↦ (m, false)
  | some d ↦ (record m { tokens = d; total_revoked = u64 (m.total_revoked + 1) }, true)
]

unfoldable pub is_revocable : String → CapabilityToken → Bool
is_revocable agent_id t = str_eq t.agent_id agent_id && not t.revoked

unfoldable pub revoke_owned : String → CapabilityToken → CapabilityToken
revoke_owned agent_id t = if is_revocable agent_id t then revoke t else t

unfoldable pub all_tokens : CapabilityManager → List CapabilityToken
all_tokens m = concat (values m.tokens)

unfoldable pub revoke_all : CapabilityManager → String → CapabilityManager
revoke_all m agent_id = record m {
  tokens = map_values (map (revoke_owned agent_id)) m.tokens;
  total_revoked = u64 (m.total_revoked + u32 (count (is_revocable agent_id) (all_tokens m)));
}

unfoldable pub is_nonempty : List CapabilityToken → Bool
is_nonempty [] = false
is_nonempty (t ∷ ts) = true

unfoldable pub cleanup : CapabilityManager → ℕ → CapabilityManager
cleanup m now = record m { tokens = retain is_nonempty (map_values (keep (is_valid now)) m.tokens) }

unfoldable pub active_count : CapabilityManager → ℕ → ℕ
active_count m now = count (is_valid now) (all_tokens m)

unfoldable pub agent_tokens : CapabilityManager → String → ℕ → List CapabilityToken
agent_tokens m agent_id now =
    keep (λ t. str_eq t.agent_id agent_id && is_valid now t) (all_tokens m)

pub record CapabilityMetrics : Type 0 where
  pub active_tokens : ℕ
  pub total_issued : ℕ
  pub total_revoked : ℕ
  pub total_denials : ℕ

unfoldable pub metrics : CapabilityManager → ℕ → CapabilityMetrics
metrics m now = record {
  active_tokens = active_count m now;
  total_issued = m.total_issued;
  total_revoked = m.total_revoked;
  total_denials = m.total_denials;
}
