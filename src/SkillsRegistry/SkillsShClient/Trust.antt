-- ===== src/SkillsRegistry/SkillsShClient/Trust.antt =====
-- Which of the cached skills can be installed.
use Prim.Native.String.{len}
use text.Mathlib.Text.{get?}
use ughi.Prelude.{
  ℕ, ◌≡◌, refl, sym, ap, ◌∙◌, String, str_eq, eq_iff, true, false, none, some, List, [], ◌∷◌, arith,
  Bool-cases, inl, inr, ok, err, any, find,
}
use ughi.Prelude.Dict
use mathlib.Core.Option
use mathlib.Core.Bool
use ughi.SkillsRegistry.IntegrityVerifier.{
  IntegrityVerifier, IntegrityInfo, recent, verify, all_hex, hash_of, sign_skill, unverified,
}
use ughi.SkillsRegistry.IntegrityVerifier.Hex.{hash_of_lem}
use ughi.SkillsRegistry.IntegrityVerifier.Gate.{passes, verify_checks, verify-sign_skill}
use ughi.SkillsRegistry.SkillsShClient.{
  SkillsShClient, SkillEntry, InstalledSkill, is_quarantined, has_slug, is_install_of, content,
  integrity_of, verify_entry, update_slug, set_quarantined, add_installed, install, quarantine,
  about,
}
use ughi.SkillsRegistry.SkillsShClient.Installing.{install_outcome}

find-update_slug :
    (slug : String) (f : SkillEntry → SkillEntry) (ss : List SkillEntry) (e : SkillEntry)
    → ((s : SkillEntry) → (f s).slug ≡ s.slug)
    → find (has_slug slug) ss ≡ some e
    → find (has_slug slug) (update_slug slug f ss) ≡ some (f e)
unfolding update_slug
find-update_slug slug f [] e k h = absurd (ground (arith, h))
find-update_slug slug f (s ∷ ss) e k h = elim (Bool-cases (has_slug slug s)) [
  | inl t ↦
      let here : has_slug slug (f s) ≡ true = ap (λ x. str_eq x slug) (k s) ∙ t in
      rw (update_slug, t) (rw here (ap (Option.map f) (rw t at h)))
  | inr n ↦ rw (update_slug, n, n) (find-update_slug slug f ss e k (rw n at h))
]

-- A cached skill that is quarantined cannot be installed afterwards.
pub install-quarantine :
    (c : SkillsShClient) (slug : String) (now : ℕ) (e : SkillEntry)
    → find (has_slug slug) c.cached ≡ some e
    → (install (quarantine c slug) slug now).1
      ≡ err (about slug "' is quarantined. Cannot install.")
unfolding quarantine install set_quarantined is_quarantined
install-quarantine c slug now e g =
    rw (install, find-update_slug slug set_quarantined c.cached e (λ s. refl) g) refl

unsigned_lem :
    (v : IntegrityVerifier) (author : String) (bytes : List ℕ)
    → passes v author bytes unverified ≡ false
unfolding passes unverified
unsigned_lem v author bytes = elim (Bool-cases (str_eq (hash_of bytes) "")) [
  | inl e ↦ absurd (omega (arith, (hash_of_lem bytes).0, ap len ((eq_iff (hash_of bytes) "").0 e)))
  | inr e ↦ rw e refl
]

-- The verifier does not pass an entry without an integrity record.
unsigned_fails :
    (c : SkillsShClient) (e : SkillEntry) (now : ℕ)
    → e.integrity ≡ unverified
    → recent c.verifier e.slug now ≡ none
    → (verify_entry c e now).1.overall_pass ≡ false
unfolding verify_entry
unsigned_fails c e now u old =
    let bytes = content e.slug e.author e.version in
    (verify_checks c.verifier e.slug e.author bytes e.integrity now old).decided
    ∙ ap (passes c.verifier e.author bytes) u
    ∙ unsigned_lem c.verifier e.author bytes

-- What its author signed, passes.
signed_passes :
    (c : SkillsShClient) (e : SkillEntry) (key start : String) (t now : ℕ)
    → e.integrity
      ≡ integrity_of (sign_skill c.verifier e.author (content e.slug e.author e.version) t)
    → recent c.verifier e.slug now ≡ none
    → Dict.lookup e.author c.verifier.trusted_keys ≡ some key
    → get? key 0 64 ≡ some start
    → len start ≡ 64
    → all_hex start ≡ true
    → (verify_entry c e now).1.overall_pass ≡ true
unfolding verify_entry integrity_of
signed_passes c e key start t now s old known cut l h =
    let bytes = content e.slug e.author e.version in
    let (info, made, passed, _) =
      verify-sign_skill c.verifier e.slug e.author key start bytes t now old known cut l h in
    ap (λ (i : IntegrityInfo). (verify c.verifier e.slug e.author bytes i now).1.overall_pass)
      (s ∙ ap integrity_of made)
    ∙ passed

-- A cached skill without an integrity record is never installed, unless its slug has an answer of the last
-- hour in the verifier's cache.
pub install_unsigned :
    (c : SkillsShClient) (slug : String) (e : SkillEntry) (now : ℕ)
    → find (has_slug slug) c.cached ≡ some e
    → e.integrity ≡ unverified
    → recent c.verifier e.slug now ≡ none
    → (x : String) × ((install c slug now).1 ≡ err x)
install_unsigned c slug e now g u old = elim (install_outcome c slug now) [
  | inr (x, r) ↦ (x, r.reported)
  | inl (f, p) ↦
      let same : f ≡ e = Option.some-injective f e (sym p.cached ∙ g) in
      absurd (
        Bool.true≢false (
          sym p.verified
          ∙ ap (λ (s : SkillEntry). (verify_entry c s now).1.overall_pass) same
          ∙ unsigned_fails c e now u old))
]

-- A cached skill that is neither quarantined nor installed yet is installed if its integrity record is the
-- signature of its content by its author, whose registered key starts with 64 hexadecimal digits, and
-- the verifier has no answer of the last hour for its slug.
pub install_signed :
    (c : SkillsShClient) (slug : String) (e : SkillEntry) (key start : String) (t now : ℕ)
    → find (has_slug slug) c.cached ≡ some e
    → is_quarantined e.safety_score ≡ false
    → any (is_install_of slug) c.installed ≡ false
    → e.integrity
      ≡ integrity_of (sign_skill c.verifier e.author (content e.slug e.author e.version) t)
    → recent c.verifier e.slug now ≡ none
    → Dict.lookup e.author c.verifier.trusted_keys ≡ some key
    → get? key 0 64 ≡ some start
    → len start ≡ 64
    → all_hex start ≡ true
    → (i : InstalledSkill) × ((install c slug now).1 ≡ ok i) × (i.entry ≡ e)
unfolding install add_installed
install_signed c slug e key start t now g q a s old known cut l x =
    let passed = signed_passes c e key start t now s old known cut l x in
    (
      (add_installed (record c { verifier = (verify_entry c e now).0 }) slug e).1,
      rw (install, g, q, a, passed) refl,
      refl,
    )
