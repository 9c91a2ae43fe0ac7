-- ===== src/Sandbox/CapabilityManager/Validating.antt =====
-- What `validate` answers, and to what tokens.
use ughi.Prelude.{
  ℕ, ◌+◌, ◌≤◌, ◌<◌, ◌≡◌, refl, subst, String, Bool, true, false, none, some, List, [], ◌∷◌, arith,
  if◌then◌else◌, Bool-cases, Option-cases, ◌⊎◌, inl, inr, any, find, All, Result, ok, err, u64,
}
use mathlib.Core.Option
use ughi.Prelude.Dict
use ughi.Sandbox.Error.{SandboxError, capability_denied, capability_expired}
use ughi.Sandbox.CapabilityManager.{
  CapabilityManager, CapabilityToken, validate, denied, tokens_at, cap_key, is_valid, is_expired,
}
use ughi.Sandbox.CapabilityManager.Authority.{authorises}

-- The token is not revoked, and has no time of expiry or one to come.
abbrev pub IsLive : ℕ → CapabilityToken → Type 0
IsLive now t = (t.revoked ≡ false) × ((t.expires_at ≡ 0) ⊎ (now < t.expires_at))

-- The token has a time of expiry, and it has come.
abbrev pub HasExpired : ℕ → CapabilityToken → Type 0
HasExpired now t = (0 < t.expires_at) × (t.expires_at ≤ now)

-- An item of a list with the property.
abbrev pub Some : {A : Type 0} → (A → Type 0) → List A → Type 0
Some P [] = ⊥
Some P (x ∷ xs) = P x ⊎ Some P xs

-- What is given is a live one of the tokens under the key, and nothing changes.
pub record Granted (m m' : CapabilityManager) (key : String) (now : ℕ)
    (r : Result SandboxError CapabilityToken) : Type 0 where
  pub token : CapabilityToken
  pub given : r ≡ ok token
  pub stands : Some (λ t. t ≡ token) (tokens_at key m.tokens)
  pub live : IsLive now token
  pub same : m' ≡ m

-- No token under the key is live; the denial is counted, and the error tells whether one has expired.
pub record Refused (m m' : CapabilityManager) (agent skill : String) (now : ℕ)
    (r : Result SandboxError CapabilityToken) : Type 0 where
  pub dead : All (λ t. ¬ IsLive now t) (tokens_at (cap_key agent skill) m.tokens)
  pub error :
      (Some (HasExpired now) (tokens_at (cap_key agent skill) m.tokens)
        × (r ≡ err (capability_expired agent skill)))
      ⊎ (All (λ t. ¬ HasExpired now t) (tokens_at (cap_key agent skill) m.tokens)
          × (r ≡ err (capability_denied agent skill)))
  pub counted : m'.total_denials ≡ u64 (m.total_denials + 1)
  pub tokens : m'.tokens ≡ m.tokens
  pub issued : m'.total_issued ≡ m.total_issued
  pub revoked : m'.total_revoked ≡ m.total_revoked

is_valid→IsLive : (now : ℕ) (t : CapabilityToken) → is_valid now t ≡ true → IsLive now t
unfolding is_valid
is_valid→IsLive now t h = ground arith

not_valid : (now : ℕ) (t : CapabilityToken) → is_valid now t ≡ false → ¬ IsLive now t
unfolding is_valid
not_valid now t h = ground arith

is_expired→HasExpired : (now : ℕ) (t : CapabilityToken) → is_expired now t ≡ true → HasExpired now t
unfolding is_expired
is_expired→HasExpired now t h = ground arith

not_expired : (now : ℕ) (t : CapabilityToken) → is_expired now t ≡ false → ¬ HasExpired now t
unfolding is_expired
not_expired now t h = ground arith

find-Some :
    {A : Type 0} (p : A → Bool) (xs : List A) (x : A) → find p xs ≡ some x → Some (λ y. y ≡ x) xs
find-Some p [] x e = absurd (Option.none-ne-some x e)
find-Some p (y ∷ xs) x e = elim (Bool-cases (p y)) [
  | inl h ↦ inl (Option.some-injective y x (rw h at e))
  | inr h ↦ inr (find-Some p xs x (rw h at e))
]

find-All :
    {A : Type 0} (p : A → Bool) (P : A → Type 0) (xs : List A)
    → ((x : A) → p x ≡ false → P x)
    → find p xs ≡ none
    → All P xs
find-All p P [] f e = tt
find-All p P (y ∷ xs) f e = elim (Bool-cases (p y)) [
  | inl h ↦ absurd (Option.some-ne-none y (rw h at e))
  | inr h ↦ (f y h, find-All p P xs f (rw h at e))
]

any-Some :
    {A : Type 0} (p : A → Bool) (P : A → Type 0) (xs : List A)
    → ((x : A) → p x ≡ true → P x)
    → any p xs ≡ true
    → Some P xs
any-Some p P [] f e = absurd (ground arith)
any-Some p P (y ∷ xs) f e = elim (Bool-cases (p y)) [
  | inl h ↦ inl (f y h)
  | inr h ↦ inr (any-Some p P xs f (rw h at e))
]

any-All :
    {A : Type 0} (p : A → Bool) (P : A → Type 0) (xs : List A)
    → ((x : A) → p x ≡ false → P x)
    → any p xs ≡ false
    → All P xs
any-All p P [] f e = tt
any-All p P (y ∷ xs) f e = elim (Bool-cases (p y)) [
  | inl h ↦ absurd (ground arith)
  | inr h ↦ (f y h, any-All p P xs f (rw h at e))
]

found-any : {A : Type 0} (p : A → Bool) (xs : List A) (x : A) → find p xs ≡ some x → any p xs ≡ true
found-any p [] x e = absurd (Option.none-ne-some x e)
found-any p (y ∷ xs) x e = elim (Bool-cases (p y)) [
  | inl h ↦ rw h refl
  | inr h ↦ rw h (found-any p xs x (rw h at e))
]

missed-any : {A : Type 0} (p : A → Bool) (xs : List A) → find p xs ≡ none → any p xs ≡ false
missed-any p [] e = refl
missed-any p (y ∷ xs) e = elim (Bool-cases (p y)) [
  | inl h ↦ absurd (Option.some-ne-none y (rw h at e))
  | inr h ↦ rw h (missed-any p xs (rw h at e))
]

find_holds : {A : Type 0} (p : A → Bool) (xs : List A) (x : A) → find p xs ≡ some x → p x ≡ true
find_holds p [] x e = absurd (Option.none-ne-some x e)
find_holds p (y ∷ xs) x e = elim (Bool-cases (p y)) [
  | inl h ↦ subst (λ z. p z ≡ true) (Option.some-injective y x (rw h at e)) h
  | inr h ↦ find_holds p xs x (rw h at e)
]

-- What `validate` does with the tokens under the key.
validate_found :
    (m : CapabilityManager) (agent skill : String) (now : ℕ) (t : CapabilityToken)
    → find (is_valid now) (tokens_at (cap_key agent skill) m.tokens) ≡ some t
    → validate m agent skill now ≡ (m, ok t)
unfolding validate tokens_at
validate_found m agent skill now t f =
    elim (Option-cases (Dict.lookup (cap_key agent skill) m.tokens)) [
      | inl e ↦ absurd (Option.none-ne-some t (rw (tokens_at, e) at f))
      | inr (ts, e) ↦ rw (validate, e, (rw (tokens_at, e) at f)) refl
    ]

validate_missed :
    (m : CapabilityManager) (agent skill : String) (now : ℕ)
    → find (is_valid now) (tokens_at (cap_key agent skill) m.tokens) ≡ none
    → validate m agent skill now ≡ (
      denied m,
      if any (is_expired now) (tokens_at (cap_key agent skill) m.tokens)
          then err (capability_expired agent skill)
          else err (capability_denied agent skill),
    )
unfolding validate tokens_at
validate_missed m agent skill now f =
    elim (Option-cases (Dict.lookup (cap_key agent skill) m.tokens)) [
      | inl e ↦ rw (validate, tokens_at, e) refl
      | inr (ts, e) ↦ rw (validate, tokens_at, e, (rw (tokens_at, e) at f)) refl
    ]

denied-Refused :
    (m : CapabilityManager) (agent skill : String) (now : ℕ)
    → find (is_valid now) (tokens_at (cap_key agent skill) m.tokens) ≡ none
    → Refused m (denied m) agent skill now (
        if any (is_expired now) (tokens_at (cap_key agent skill) m.tokens)
        then err (capability_expired agent skill)
        else err (capability_denied agent skill))
unfolding denied
denied-Refused m agent skill now f =
    let ts = tokens_at (cap_key agent skill) m.tokens in
    record {
      dead = find-All (is_valid now) _ ts (not_valid now) f;
      error = elim (Bool-cases (any (is_expired now) ts)) [
        | inl e ↦ inl (any-Some (is_expired now) _ ts (is_expired→HasExpired now) e, rw e refl)
        | inr e ↦ inr (any-All (is_expired now) _ ts (not_expired now) e, rw e refl)
      ];
      counted = refl;
      tokens = refl;
      issued = refl;
      revoked = refl;
    }

-- `validate` gives a live token from under the key of the agent and the skill, and changes nothing, if
-- there is one; otherwise it counts one denial and changes nothing else, and its error names the agent and the
-- skill and tells whether a token under the key has expired. The first is the case exactly when the
-- tokens authorise the agent.
pub validate_outcome :
    (m : CapabilityManager) (agent skill : String) (now : ℕ)
    → ((authorises m agent skill now ≡ true)
        × Granted m
            (validate m agent skill now).0
            (cap_key agent skill)
            now
            (validate m agent skill now).1)
      ⊎ ((authorises m agent skill now ≡ false)
          × Refused m (validate m agent skill now).0 agent skill now (validate m agent skill now).1)
unfolding authorises
validate_outcome m agent skill now =
    let ts = tokens_at (cap_key agent skill) m.tokens in
    elim (Option-cases (find (is_valid now) ts)) [
      | inl f ↦ inr (
        missed-any (is_valid now) ts f,
        rw (validate_missed m agent skill now f) (denied-Refused m agent skill now f),
      )
      | inr (t, f) ↦ inl (
        found-any (is_valid now) ts t f,
        rw (validate_found m agent skill now t f) (record {
          token = t;
          given = refl;
          stands = find-Some (is_valid now) ts t f;
          live = is_valid→IsLive now t (find_holds (is_valid now) ts t f);
          same = refl;
        }),
      )
    ]
