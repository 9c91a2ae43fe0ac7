-- ===== src/SkillsRegistry/SkillsShClient/Installing.antt =====
-- What an install goes through, over the verifier's gate.
use ughi.Prelude.{
  ℕ, ◌≤◌, ◌≡◌, refl, sym, ap, ◌∙◌, String, str_eq, eq_iff, Bool, true, false, not, some, List, [],
  ◌∷◌, arith, subst, ◌⊎◌, Bool-cases, Option-cases, inl, inr, Result, ok, err, count, any, keep,
  find, unit, count-append, count-keep, count-and-le,
}
use ughi.SkillsRegistry.SkillsShClient.{
  SkillsShClient, SkillEntry, InstalledSkill, is_quarantined, has_slug, is_install_of, verify_entry,
  capabilities, add_installed, mark_installed, sync, verify_skill, install, uninstall, quarantine,
  about, blocked,
}

-- What a successful install of a slug says of the client before.
pub record Admitted (c : SkillsShClient) (slug : String) (now : ℕ) (i : InstalledSkill)
    : Type 0 where
  pub cached : find (has_slug slug) c.cached ≡ some i.entry
  pub trusted : is_quarantined i.entry.safety_score ≡ false
  pub fresh : any (is_install_of slug) c.installed ≡ false
  pub verified : (verify_entry c i.entry now).1.overall_pass ≡ true
  pub granted : i.capability_tokens ≡ capabilities i.entry.category

-- The client and the skill after the gate.
unfoldable pub passed_install :
    SkillsShClient → String → SkillEntry → ℕ → SkillsShClient × InstalledSkill
passed_install c slug e now =
    add_installed (record c { verifier = (verify_entry c e now).0 }) slug e

pub record Passed (c : SkillsShClient) (slug : String) (now : ℕ) (e : SkillEntry) : Type 0 where
  pub cached : find (has_slug slug) c.cached ≡ some e
  pub trusted : is_quarantined e.safety_score ≡ false
  pub fresh : any (is_install_of slug) c.installed ≡ false
  pub verified : (verify_entry c e now).1.overall_pass ≡ true
  pub done :
      install c slug now ≡ ((passed_install c slug e now).0, ok (passed_install c slug e now).1)

pub record Refused (c : SkillsShClient) (slug : String) (now : ℕ) (x : String) : Type 0 where
  pub reported : (install c slug now).1 ≡ err x
  pub same : (install c slug now).0.installed ≡ c.installed

pub install_outcome :
    (c : SkillsShClient) (slug : String) (now : ℕ)
    → ((e : SkillEntry) × Passed c slug now e) ⊎ ((x : String) × Refused c slug now x)
unfolding install passed_install
install_outcome c slug now = elim (Option-cases (find (has_slug slug) c.cached)) [
  | inl g ↦ inr (
    about slug "' not in cache. Run 'ughi skills update' first.",
    record { reported = rw (install, g) refl; same = rw (install, g) refl },
  )
  | inr (e, g) ↦ elim (Bool-cases (is_quarantined e.safety_score)) [
    | inl q ↦ inr (
      about slug "' is quarantined. Cannot install.",
      record { reported = rw (install, g, q) refl; same = rw (install, g, q) refl },
    )
    | inr q ↦ elim (Bool-cases (any (is_install_of slug) c.installed)) [
      | inl a ↦ inr (
        about slug "' is already installed.",
        record { reported = rw (install, g, q, a) refl; same = rw (install, g, q, a) refl },
      )
      | inr a ↦ elim (Bool-cases (verify_entry c e now).1.overall_pass) [
        | inr p ↦ inr (
          blocked slug (verify_entry c e now).1.reason,
          record { reported = rw (install, g, q, a, p) refl; same = rw (install, g, q, a, p) refl },
        )
        | inl p ↦ inl (
          e,
          record {
            cached = g;
            trusted = q;
            fresh = a;
            verified = p;
            done = rw (install, g, q, a, p) refl;
          },
        )
      ]
    ]
  ]
]

skill_of : InstalledSkill → Result String InstalledSkill → InstalledSkill
skill_of i (ok j) = j
skill_of i (err x) = i

-- An install that succeeds has passed every gate: the entry is cached under the slug and not
-- quarantined, no install of the slug stands, the verifier passes the entry, and the skill gets the
-- capabilities of its category.
pub install-Admitted :
    (c : SkillsShClient) (slug : String) (now : ℕ) (i : InstalledSkill)
    → (install c slug now).1 ≡ ok i
    → Admitted c slug now i
unfolding skill_of
install-Admitted c slug now i h = elim (install_outcome c slug now) [
  | inr (x, n) ↦ absurd (ground (arith, h, n.reported))
  | inl (e, p) ↦
      subst (Admitted c slug now)
        (ap (skill_of (passed_install c slug e now).1) (sym (ap (λ r. r.1) p.done) ∙ h))
        (unfold passed_install in
          unfold add_installed in
          record {
            cached = p.cached;
            trusted = p.trusted;
            fresh = p.fresh;
            verified = p.verified;
            granted = refl;
          })
]

pub data Call : Type 0 where
  installs : String → ℕ → Call
  uninstalls : String → Call
  quarantines : String → Call
  verifies : String → ℕ → Call
  syncs : ℕ → Call

unfoldable pub step : SkillsShClient → Call → SkillsShClient
step c (installs slug now) = (install c slug now).0
step c (uninstalls slug) = (uninstall c slug).0
step c (quarantines slug) = quarantine c slug
step c (verifies slug now) = (verify_skill c slug now).0
step c (syncs now) = (sync c now).0

unfoldable pub run : SkillsShClient → List Call → SkillsShClient
run c [] = c
run c (x ∷ xs) = run (step c x) xs

-- No slug is installed twice.
abbrev pub Once : SkillsShClient → Type 0
Once c = (slug : String) → count (is_install_of slug) c.installed ≤ 1

count-mark_installed :
    (slug other : String) (ss : List InstalledSkill)
    → count (is_install_of other) (mark_installed slug ss) ≡ count (is_install_of other) ss
unfolding mark_installed
count-mark_installed slug other [] = refl
count-mark_installed slug other (s ∷ ss) = ground (arith, count-mark_installed slug other ss)

count_absent :
    (slug : String) (ss : List InstalledSkill)
    → any (is_install_of slug) ss ≡ false
    → count (is_install_of slug) ss ≡ 0
count_absent slug [] h = refl
count_absent slug (s ∷ ss) h = ground (arith, count_absent slug ss)

find_slug :
    (slug : String) (ss : List SkillEntry) (e : SkillEntry)
    → find (has_slug slug) ss ≡ some e
    → e.slug ≡ slug
find_slug slug [] e h = absurd (ground (arith, h))
find_slug slug (s ∷ ss) e h = ground (arith, eq_iff s.slug slug, find_slug slug ss e)

unit-le : (b : Bool) → unit b ≤ 1
unit-le b = ground arith

apart_lem :
    (s slug other : String) → s ≡ slug → str_eq slug other ≡ false → unit (str_eq s other) ≡ 0
apart_lem s slug other e n = rw (e, n) refl

install-Once : (c : SkillsShClient) (slug : String) (now : ℕ) → Once c → Once (install c slug now).0
unfolding passed_install add_installed
install-Once c slug now o other = elim (install_outcome c slug now) [
  | inr (x, r) ↦ rw r.same (o other)
  | inl (e, p) ↦
      let key = find_slug slug c.cached e p.cached in
      let free = count_absent slug c.installed p.fresh in
      let pushed =
        count-append (is_install_of other) c.installed ((passed_install c slug e now).1 ∷ []) in
      elim (Bool-cases (str_eq slug other)) [
        | inl same ↦ rw p.done (
            rw (sym ((eq_iff slug other).0 same)) (
              omega (
                arith,
                free,
                count-append (is_install_of slug) c.installed
                    ((passed_install c slug e now).1 ∷ []),
                unit-le (is_install_of slug (passed_install c slug e now).1),
              )))
        | inr apart ↦
            rw p.done (omega (arith, pushed, o other, apart_lem e.slug slug other key apart))
      ]
]

installed-verify_skill :
    (c : SkillsShClient) (slug : String) (now : ℕ)
    → (verify_skill c slug now).0.installed ≡ c.installed
unfolding verify_skill
installed-verify_skill c slug now = elim (Option-cases (find (has_slug slug) c.cached)) [
  | inl g ↦ rw (verify_skill, g) refl
  | inr (e, g) ↦ rw (verify_skill, g) refl
]

step-Once : (c : SkillsShClient) (x : Call) → Once c → Once (step c x)
unfolding step uninstall quarantine sync
step-Once c (installs slug now) o other = install-Once c slug now o other
step-Once c (uninstalls slug) o other = omega (
  arith,
  o other,
  count-keep (is_install_of other) (λ s. not (is_install_of slug s)) c.installed,
  count-and-le (is_install_of other) (λ s. not (is_install_of slug s)) c.installed,
)
step-Once c (quarantines slug) o other =
    omega (arith, o other, count-mark_installed slug other c.installed)
step-Once c (verifies slug now) o other = rw (installed-verify_skill c slug now) (o other)
step-Once c (syncs now) o other = o other

any-keep :
    (slug : String) (ss : List InstalledSkill)
    → any (is_install_of slug) (keep (λ s. not (is_install_of slug s)) ss) ≡ false
any-keep slug [] = refl
any-keep slug (s ∷ ss) = elim (Bool-cases (is_install_of slug s)) [
  | inl e ↦ rw e (any-keep slug ss)
  | inr e ↦ rw e (rw e (any-keep slug ss))
]

run_from : (c : SkillsShClient) (xs : List Call) → Once c → Once (run c xs)
unfolding run
run_from c [] o = o
run_from c (x ∷ xs) o = run_from (step c x) xs (step-Once c x o)

-- From a client without installed skills, after any calls no slug is installed twice, and right after an
-- `uninstall` of a slug it is not installed.
pub run-Once :
    (c : SkillsShClient) (xs : List Call) (slug : String)
    → c.installed ≡ []
    → Once (run c xs) × (any (is_install_of slug) (uninstall (run c xs) slug).0.installed ≡ false)
unfolding uninstall
run-Once c xs slug n =
    (run_from c xs (λ other. rw n (omega arith)), any-keep slug (run c xs).installed)
