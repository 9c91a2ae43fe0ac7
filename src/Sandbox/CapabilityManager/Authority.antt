-- ===== src/Sandbox/CapabilityManager/Authority.antt =====
-- Which agent may call which skill: the authority that the tokens give, and how each operation of
-- the capability manager changes it.
use ughi.Prelude.{
  ℕ, ◌≤◌, ◌≡◌, refl, ap, ◌∙◌, String, eq_iff, str_eq, Bool, true, not, ◌&&◌, ◌||◌, none, some, List,
  [], ◌∷◌, ◌++◌, arith, if◌then◌else◌, Option-cases, inl, inr, any, keep, map,
}
use ughi.Prelude.Dict
use ughi.Prelude.Dict.{Dict, lookup-insert, IsMap}
use ughi.Prelude.Dict.Retain.{
  lookup-map_values, lookup-retain, IsMap-map_values, retain, map_values,
}
use ughi.Sandbox.CapabilityManager.{
  CapabilityManager, CapabilityScope, CapabilityToken, issue, new_token, tokens_at, cap_key,
  is_valid, revoke_all, revoke_owned, is_revocable, revoke, cleanup, is_nonempty,
}

-- Some live token stands under the key of the agent and the skill.
unfoldable pub authorises : CapabilityManager → String → String → ℕ → Bool
authorises m agent skill now = any (is_valid now) (tokens_at (cap_key agent skill) m.tokens)

module _ {ℓ} {A : Type ℓ} (p : A → Bool) where
  any-append : (xs ys : List A) → any p (xs ++ ys) ≡ (any p xs || any p ys)
  any-append [] ys = refl
  any-append (x ∷ xs) ys = ground (arith, any-append xs ys)

  any-keep :
      (q : A → Bool)
      → ((x : A) → p x ≡ true → q x ≡ true)
      → (xs : List A) → any p (keep q xs) ≡ any p xs
  any-keep q h [] = refl
  any-keep q h (x ∷ xs) = ground (arith, h x, any-keep q h xs)

-- A token that `issue` adds authorises its agent and skill while it is live, and changes nothing
-- for a pair with another key.
pub authorises-issue :
    (m : CapabilityManager) (a s : String) (scope : CapabilityScope) (ttl now : ℕ) (id b r : String)
    (later : ℕ)
    → authorises (issue m a s scope ttl now id).0 b r later ≡ (
        authorises m b r later
        || (str_eq (cap_key a s) (cap_key b r) && is_valid later (issue m a s scope ttl now id).1))
unfolding authorises issue tokens_at
authorises-issue m a s scope ttl now id b r later = ground (
  arith,
  eq_iff (cap_key a s) (cap_key b r),
  lookup-insert (cap_key a s) (cap_key b r)
      (tokens_at (cap_key a s) m.tokens ++ (new_token a s scope ttl now id ∷ [])) m.tokens,
  any-append (is_valid later) (tokens_at (cap_key a s) m.tokens)
      (new_token a s scope ttl now id ∷ []),
)

is_valid-revoke_owned :
    (a : String) (now : ℕ) (t : CapabilityToken)
    → is_valid now (revoke_owned a t) ≡ (is_valid now t && not (str_eq t.agent_id a))
unfolding is_valid revoke_owned is_revocable revoke
is_valid-revoke_owned a now t = ground arith

any-revoke_owned :
    (a : String) (now : ℕ) (ts : List CapabilityToken)
    → any (is_valid now) (map (revoke_owned a) ts)
      ≡ any (λ t. is_valid now t && not (str_eq t.agent_id a)) ts
any-revoke_owned a now [] = refl
any-revoke_owned a now (t ∷ ts) = rw (is_valid-revoke_owned a now t, any-revoke_owned a now ts) refl

tokens_at-map_values :
    (key : String) (f : CapabilityToken → CapabilityToken) (d : Dict (List CapabilityToken))
    → tokens_at key (map_values (map f) d) ≡ map f (tokens_at key d)
unfolding tokens_at
tokens_at-map_values key f d = elim (Option-cases (Dict.lookup key d)) [
  | inl e ↦ rw (tokens_at, lookup-map_values key (map f) d, e) refl
  | inr (ts, e) ↦ rw (tokens_at, lookup-map_values key (map f) d, e) refl
]

if_nonempty :
    (ts : List CapabilityToken)
    → (elim (if is_nonempty ts then some ts else none) [ none ↦ [] | some us ↦ us ]) ≡ ts
unfolding is_nonempty
if_nonempty [] = refl
if_nonempty (t ∷ ts) = refl

tokens_at-cleanup :
    (key : String) (p : CapabilityToken → Bool) (d : Dict (List CapabilityToken))
    → IsMap d
    → tokens_at key (retain is_nonempty (map_values (keep p) d)) ≡ keep p (tokens_at key d)
unfolding tokens_at
tokens_at-cleanup key p d v =
    let found =
      lookup-retain key is_nonempty (map_values (keep p) d) (IsMap-map_values (keep p) d v) in
    let mapped = lookup-map_values key (keep p) d in
    elim (Option-cases (Dict.lookup key d)) [
      | inl e ↦ rw (tokens_at, found, mapped, e) refl
      | inr (ts, e) ↦ rw (tokens_at, found, mapped, e) (if_nonempty (keep p ts))
    ]

-- After `revoke_all` of an agent, exactly the live tokens of other agents still authorise.
pub authorises-revoke_all :
    (m : CapabilityManager) (a b r : String) (now : ℕ)
    → authorises (revoke_all m a) b r now
      ≡ any (λ t. is_valid now t && not (str_eq t.agent_id a)) (tokens_at (cap_key b r) m.tokens)
unfolding authorises revoke_all
authorises-revoke_all m a b r now =
    ap (any (is_valid now)) (tokens_at-map_values (cap_key b r) (revoke_owned a) m.tokens)
    ∙ any-revoke_owned a now (tokens_at (cap_key b r) m.tokens)

is_valid_earlier :
    (now later : ℕ) (t : CapabilityToken)
    → now ≤ later
    → is_valid later t ≡ true
    → is_valid now t ≡ true
unfolding is_valid
is_valid_earlier now later t l v = ground arith

-- Where no key stands twice, `cleanup` takes away no authority: at the time of the clean-up and at
-- any later time, the same agents may call the same skills as without it.
pub authorises-cleanup :
    (m : CapabilityManager) (a s : String) (now later : ℕ)
    → IsMap m.tokens
    → now ≤ later
    → authorises (cleanup m now) a s later ≡ authorises m a s later
unfolding authorises cleanup
authorises-cleanup m a s now later v l =
    ap (any (is_valid later)) (tokens_at-cleanup (cap_key a s) (is_valid now) m.tokens v)
    ∙ any-keep (is_valid later) (is_valid now) (λ t. is_valid_earlier now later t l)
        (tokens_at (cap_key a s) m.tokens)
