-- ===== src/SkillsRegistry/IntegrityVerifier/Gate.antt =====
-- What the gate lets pass, and for how long it goes by an earlier answer.
use Prim.Native.String.{len}
use text.Mathlib.Text.{get?}
use ughi.Prelude.{
  ℕ, ◌+◌, ◌-◌, ◌<◌, ◌≡◌, refl, ◌∙◌, String, str_append, str_eq, eq_refl, Bool, true, false, ◌&&◌,
  none, some, List, arith, Bool-cases, inl, inr, if◌then◌else◌, u64,
}
use ughi.Prelude.Dict
use ughi.Prelude.Dict.{lookup-insert}
use ughi.SkillsRegistry.IntegrityVerifier.{
  IntegrityVerifier, IntegrityInfo, VerificationResult, all_hex, verify_ed25519, hash_of,
  is_accepted, recent, check, verify, reject, accept, signed, sign_skill, clean, virustotal_scan,
}
use ughi.SkillsRegistry.IntegrityVerifier.Hex.{signature_lem}

-- The three checks.
unfoldable pub passes : IntegrityVerifier → String → List ℕ → IntegrityInfo → Bool
passes v author bytes info =
    str_eq (hash_of bytes) info.sha256
    && (verify_ed25519 v author (hash_of bytes) info.signature info.author_pubkey
        && is_accepted info.vt_status)

-- A check keeps its result for the slug, with the time, and counts it on one side.
pub record Checked (v v' : IntegrityVerifier) (slug : String) (now : ℕ) (ok : Bool)
    (r : VerificationResult) : Type 0 where
  pub decided : r.overall_pass ≡ ok
  pub timed : r.checked_at_ms ≡ now
  pub kept : Dict.lookup slug v'.cache ≡ some r
  pub verified : v'.total_verified ≡ (if ok then u64 (v.total_verified + 1) else v.total_verified)
  pub rejected : v'.total_rejected ≡ (if ok then v.total_rejected else u64 (v.total_rejected + 1))
  pub keys : v'.trusted_keys ≡ v.trusted_keys

reject-Checked :
    (v : IntegrityVerifier) (r : VerificationResult)
    → r.overall_pass ≡ false
    → Checked v (reject v r).0 r.skill_slug r.checked_at_ms false (reject v r).1
unfolding reject
reject-Checked v r f = record {
  decided = f;
  timed = refl;
  kept = lookup-insert r.skill_slug r.skill_slug r v.cache ∙ rw (eq_refl r.skill_slug) refl;
  verified = refl;
  rejected = refl;
  keys = refl;
}

accept-Checked :
    (v : IntegrityVerifier) (r : VerificationResult)
    → r.overall_pass ≡ true
    → Checked v (accept v r).0 r.skill_slug r.checked_at_ms true (accept v r).1
unfolding accept
accept-Checked v r f = record {
  decided = f;
  timed = refl;
  kept = lookup-insert r.skill_slug r.skill_slug r v.cache ∙ rw (eq_refl r.skill_slug) refl;
  verified = refl;
  rejected = refl;
  keys = refl;
}

check-Checked :
    (v : IntegrityVerifier) (slug author : String) (bytes : List ℕ) (info : IntegrityInfo) (now : ℕ)
    → Checked v
        (check v slug author bytes info now).0
        slug
        now
        (passes v author bytes info)
        (check v slug author bytes info now).1
unfolding check passes
check-Checked v slug author bytes info now =
    elim (Bool-cases (str_eq (hash_of bytes) info.sha256)) [
      | inr e ↦ rw e (reject-Checked v _ refl)
      | inl e ↦
          elim (Bool-cases
            (verify_ed25519 v author (hash_of bytes) info.signature info.author_pubkey)) [
              | inr f ↦ rw (e, f) (reject-Checked v _ refl)
              | inl f ↦ elim (Bool-cases (is_accepted info.vt_status)) [
                | inr g ↦ rw (e, f, g) (reject-Checked v _ refl)
                | inl g ↦ rw (e, f, g) (accept-Checked v _ refl)
              ]
            ]
    ]

-- `verify` without a cached result.
pub verify_checks :
    (v : IntegrityVerifier) (slug author : String) (bytes : List ℕ) (info : IntegrityInfo) (now : ℕ)
    → recent v slug now ≡ none
    → Checked v
        (verify v slug author bytes info now).0
        slug
        now
        (passes v author bytes info)
        (verify v slug author bytes info now).1
unfolding verify
verify_checks v slug author bytes info now old =
    rw (verify, old) (check-Checked v slug author bytes info now)

verify-recent :
    (v : IntegrityVerifier) (slug author : String) (bytes : List ℕ) (info : IntegrityInfo) (now : ℕ)
    (r : VerificationResult)
    → Dict.lookup slug v.cache ≡ some r
    → now - r.checked_at_ms < 3600000
    → verify v slug author bytes info now ≡ (v, r)
unfolding verify recent
verify-recent v slug author bytes info now r e l = ground arith

-- Within an hour of a check, `verify` of the same slug gives the same answer for any content, any
-- author and any integrity record.
pub verify_goes_by_slug :
    (v : IntegrityVerifier) (slug author : String) (bytes : List ℕ) (info : IntegrityInfo) (now : ℕ)
    (author' : String) (bytes' : List ℕ) (info' : IntegrityInfo) (later : ℕ)
    → recent v slug now ≡ none
    → later < now + 3600000
    → verify (verify v slug author bytes info now).0 slug author' bytes' info' later
      ≡ verify v slug author bytes info now
verify_goes_by_slug v slug author bytes info now author' bytes' info' later old soon =
    let c = verify_checks v slug author bytes info now old in
    verify-recent (verify v slug author bytes info now).0 slug author' bytes' info' later _ c.kept
      (omega (arith, c.timed))

-- Anyone who knows the registered key of an author can have any content pass in the author's name: 128
-- hexadecimal digits are a signature, whatever they are.
pub verify_accepts_forged :
    (v : IntegrityVerifier) (slug author key : String) (bytes : List ℕ) (forged : String)
    (t now : ℕ)
    → recent v slug now ≡ none
    → Dict.lookup author v.trusted_keys ≡ some key
    → len forged ≡ 128
    → all_hex forged ≡ true
    → (verify v slug author bytes
        (record {
          sha256 = hash_of bytes;
          signature = forged;
          author_pubkey = key;
          vt_status = virustotal_scan bytes;
          verified_at_ms = t;
          verified = true;
        })
        now).1.overall_pass
      ≡ true
unfolding passes verify_ed25519 virustotal_scan is_accepted
verify_accepts_forged v slug author key bytes forged t now old known l h =
    (verify_checks v slug author bytes _ now old).decided
    ∙ ground (arith, eq_refl (hash_of bytes), eq_refl key, known, l, h)

-- What an author with a key of 64 hexadecimal digits or more signs, passes: without a cached
-- result of the last hour, `verify` of the same content by the record of `sign_skill`. The record has the
-- status clean for every content, since the scan of the code, not written yet, answers so.
pub verify-sign_skill :
    (v : IntegrityVerifier) (slug author key start : String) (bytes : List ℕ) (t now : ℕ)
    → recent v slug now ≡ none
    → Dict.lookup author v.trusted_keys ≡ some key
    → get? key 0 64 ≡ some start
    → len start ≡ 64
    → all_hex start ≡ true
    → (info : IntegrityInfo) × (sign_skill v author bytes t ≡ signed info)
      × ((verify v slug author bytes info now).1.overall_pass ≡ true)
      × (info.vt_status ≡ clean)
unfolding sign_skill virustotal_scan
verify-sign_skill v slug author key start bytes t now old known cut l h =
    let (l', h') = signature_lem bytes start l h in
    (
      _,
      rw (known, sign_skill, cut) refl,
      verify_accepts_forged v slug author key bytes (str_append (hash_of bytes) start) t now old
          known l' h',
      refl,
    )
