-- ===== src/SkillsRegistry/IntegrityVerifier/Rules.antt =====
-- The rules of `verify`, independent of the checks of the code.
use Prim.Native.Char.{Char, code}
use Prim.Native.String as NativeString
use Prim.Native.String.{len}
use mathlib.Core.Bool.{true≢false}
use mathlib.Core.Option
use ughi.Prelude.{
  ℕ, ◌+◌, ◌≤◌, ◌≡◌, refl, ◌∙◌, sym, ap, String, str_eq, eq_iff, eq_refl, true, false, none, some,
  List, arith, Bool-cases, Option-cases, ◌⊎◌, inl, inr,
}
use ughi.Prelude.Dict
use ughi.SkillsRegistry.Sha256.{sha256_hex}
use ughi.SkillsRegistry.Sha256.Padding.{sha256_hex-padded}
use ughi.SkillsRegistry.IntegrityVerifier.{
  IntegrityVerifier, IntegrityInfo, VerificationResult, VirusTotalStatus, clean, unavailable,
  pending, suspicious, malicious, all_hex, is_hex_char, verify_ed25519, hash_of, is_accepted,
  recent, verify,
}
use ughi.SkillsRegistry.IntegrityVerifier.Gate.{Checked, passes, verify_checks}

-- The rules, written out: the record states the SHA-256 of the content and the key that is registered for
-- the author, its signature is 128 hexadecimal digits, and its scan is clean or not available.
abbrev pub IsHexDigit : Char → Type 0
IsHexDigit c =
    ((48 ≤ code c) × (code c ≤ 57))
    ⊎ (((65 ≤ code c) × (code c ≤ 70)) ⊎ ((97 ≤ code c) × (code c ≤ 102)))

abbrev pub IsHex : String → Type 0
IsHex NativeString.[] = Unit
IsHex (NativeString.◌∷◌ c s) = IsHexDigit c × IsHex s

pub record IsProper (v : IntegrityVerifier) (author : String) (bytes : List ℕ)
    (info : IntegrityInfo) : Type 0 where
  pub hashed : sha256_hex bytes ≡ some info.sha256
  pub registered : Dict.lookup author v.trusted_keys ≡ some info.author_pubkey
  pub size : len info.signature ≡ 128
  pub digits : IsHex info.signature
  pub scanned : (info.vt_status ≡ clean) ⊎ (info.vt_status ≡ unavailable)

hex_digit : (c : Char) → is_hex_char c ≡ true → IsHexDigit c
unfolding is_hex_char
hex_digit c h = ground arith

digit_hex : (c : Char) → IsHexDigit c → is_hex_char c ≡ true
unfolding is_hex_char
digit_hex c h = ground arith

all_hex→IsHex : (s : String) → all_hex s ≡ true → IsHex s
unfolding all_hex
all_hex→IsHex NativeString.[] h = tt
all_hex→IsHex (NativeString.◌∷◌ c s) h =
    (hex_digit c (ground arith), all_hex→IsHex s (ground arith))

IsHex→all_hex : (s : String) → IsHex s → all_hex s ≡ true
unfolding all_hex
IsHex→all_hex NativeString.[] h = refl
IsHex→all_hex (NativeString.◌∷◌ c s) h = ground (arith, digit_hex c h.0, IsHex→all_hex s h.1)

hash_of_lem : (bytes : List ℕ) → sha256_hex bytes ≡ some (hash_of bytes)
unfolding hash_of
hash_of_lem bytes =
    sha256_hex-padded bytes ∙ ap some (sym (rw (hash_of, sha256_hex-padded bytes) refl))

accepted_scan : (s : VirusTotalStatus) → is_accepted s ≡ true → (s ≡ clean) ⊎ (s ≡ unavailable)
unfolding is_accepted
accepted_scan clean h = inl refl
accepted_scan unavailable h = inr refl
accepted_scan pending h = absurd (true≢false (sym h))
accepted_scan suspicious h = absurd (true≢false (sym h))
accepted_scan malicious h = absurd (true≢false (sym h))

scan_accepted : (s : VirusTotalStatus) → (s ≡ clean) ⊎ (s ≡ unavailable) → is_accepted s ≡ true
unfolding is_accepted
scan_accepted s (inl e) = rw e refl
scan_accepted s (inr e) = rw e refl

signature_proper :
    (v : IntegrityVerifier) (author hash signature key : String)
    → verify_ed25519 v author hash signature key ≡ true
    → (Dict.lookup author v.trusted_keys ≡ some key)
      × (len signature ≡ 128)
      × (all_hex signature ≡ true)
unfolding verify_ed25519
signature_proper v author hash signature key h =
    elim (Option-cases (Dict.lookup author v.trusted_keys)) [
      | inl e ↦ absurd (true≢false (sym (rw (verify_ed25519, e) at h)))
      | inr (k, e) ↦
          let same : str_eq k key ≡ true = ground arith in
          (e ∙ ap some ((eq_iff k key).0 same), ground arith, ground arith)
    ]

proper_signature :
    (v : IntegrityVerifier) (author hash signature key : String)
    → Dict.lookup author v.trusted_keys ≡ some key
    → len signature ≡ 128
    → all_hex signature ≡ true
    → verify_ed25519 v author hash signature key ≡ true
unfolding verify_ed25519
proper_signature v author hash signature key k l a = ground (arith, eq_refl key)

passes→IsProper :
    (v : IntegrityVerifier) (author : String) (bytes : List ℕ) (info : IntegrityInfo)
    → passes v author bytes info ≡ true
    → IsProper v author bytes info
unfolding passes
passes→IsProper v author bytes info h =
    let eq : str_eq (hash_of bytes) info.sha256 ≡ true = ground arith in
    let (key, size, digits) =
      signature_proper v author (hash_of bytes) info.signature info.author_pubkey (ground arith) in
    record {
      hashed = hash_of_lem bytes ∙ ap some ((eq_iff (hash_of bytes) info.sha256).0 eq);
      registered = key;
      size = size;
      digits = all_hex→IsHex info.signature digits;
      scanned = accepted_scan info.vt_status (ground arith);
    }

IsProper→passes :
    (v : IntegrityVerifier) (author : String) (bytes : List ℕ) (info : IntegrityInfo)
    → IsProper v author bytes info
    → passes v author bytes info ≡ true
unfolding passes
IsProper→passes v author bytes info p =
    let eq : hash_of bytes ≡ info.sha256 =
      Option.some-injective _ _ (sym (hash_of_lem bytes) ∙ p.hashed) in
    ground (
      arith,
      (eq_iff (hash_of bytes) info.sha256).1 eq,
      proper_signature v author (hash_of bytes) info.signature info.author_pubkey p.registered
          p.size (IsHex→all_hex info.signature p.digits),
      scan_accepted info.vt_status p.scanned,
    )

not_recent :
    (v : IntegrityVerifier) (slug : String) (now : ℕ)
    → ((r : VerificationResult)
        → Dict.lookup slug v.cache ≡ some r
        → r.checked_at_ms + 3600000 ≤ now)
    → recent v slug now ≡ none
unfolding recent
not_recent v slug now old = elim (Option-cases (Dict.lookup slug v.cache)) [
  | inl e ↦ rw (recent, e) refl
  | inr (r, e) ↦ let past = old r e in rw (recent, e) (ground arith)
]

-- If the last answer for the slug is an hour old or there is none, `verify` passes exactly if the record
-- states the SHA-256 of the content and the key that is registered for the author, its signature is 128
-- hexadecimal digits and its scan is clean or not available. Either way it counts the answer on its side
-- alone, and keeps it for the slug with the time.
pub verify-Checked :
    (v : IntegrityVerifier) (slug author : String) (bytes : List ℕ) (info : IntegrityInfo) (now : ℕ)
    → ((r : VerificationResult)
        → Dict.lookup slug v.cache ≡ some r
        → r.checked_at_ms + 3600000 ≤ now)
    → (IsProper v author bytes info
        × Checked v
            (verify v slug author bytes info now).0
            slug
            now
            true
            (verify v slug author bytes info now).1)
      ⊎ ((¬ IsProper v author bytes info)
          × Checked v
              (verify v slug author bytes info now).0
              slug
              now
              false
              (verify v slug author bytes info now).1)
verify-Checked v slug author bytes info now old =
    let c = verify_checks v slug author bytes info now (not_recent v slug now old) in
    elim (Bool-cases (passes v author bytes info)) [
      | inl p ↦ inl (passes→IsProper v author bytes info p, rw p at c)
      | inr p ↦
          inr
            (λ proper. true≢false (sym (IsProper→passes v author bytes info proper) ∙ p), rw p at c)
    ]
