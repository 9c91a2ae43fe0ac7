-- ===== src/SkillsRegistry/IntegrityVerifier.antt =====
-- The verifier of crates/ughi-skills-registry/src/integrity.rs. A hash, a signature and a key are texts.
use Prim.Native.Char.{Char, code}
use Prim.Native.String as NativeString
use ughi.Prelude.{
  ℕ, ◌+◌, ◌-◌, String, str_append, str_eq, Bool, true, false, not, ◌&&◌, ◌||◌, Option, none, some,
  List, [], ◌∷◌, ltb, leb, ◌==◌, if◌then◌else◌, u32, u64, length,
}
use text.Mathlib.Text.{get?}
use Prim.Native.String.{len}
use ughi.Prelude.Dict
use ughi.Prelude.Dict.{Dict}
use ughi.SkillsRegistry.Sha256.{sha256_hex}
pub mod Hex
pub mod Gate
pub mod Rules

pub data VirusTotalStatus : Type 0 where
  pending clean suspicious malicious unavailable : VirusTotalStatus

unfoldable pub status_text : VirusTotalStatus → String
status_text pending = "⏳ Pending"
status_text clean = "✅ Clean"
status_text suspicious = "⚠\u{fe0f} Suspicious"
status_text malicious = "🚫 Malicious"
status_text unavailable = "❓ Unavailable"

pub record IntegrityInfo : Type 0 where
  pub sha256 : String
  pub signature : String
  pub author_pubkey : String
  pub vt_status : VirusTotalStatus
  pub verified_at_ms : ℕ
  pub verified : Bool

unfoldable pub unverified : IntegrityInfo
unverified = record {
  sha256 = "";
  signature = "";
  author_pubkey = "";
  vt_status = pending;
  verified_at_ms = 0;
  verified = false;
}

pub record VerificationResult : Type 0 where
  pub skill_slug : String
  pub sha256_valid : Bool
  pub signature_valid : Bool
  pub vt_clean : Bool
  pub overall_pass : Bool
  pub reason : String
  pub checked_at_ms : ℕ

pub record IntegrityVerifier : Type 0 where
  pub trusted_keys : Dict String
  pub cache : Dict VerificationResult
  pub total_verified : ℕ
  pub total_rejected : ℕ

unfoldable pub publishers : Dict String
publishers =
    ("vercel", "a1b2c3d4e5f6a7b8c9d0e1f2a3b4c5d6e7f8a9b0c1d2e3f4a5b6c7d8e9f0a1b2")
    ∷ ("tailwindlabs", "b2c3d4e5f6a7b8c9d0e1f2a3b4c5d6e7f8a9b0c1d2e3f4a5b6c7d8e9f0a1b2c3")
    ∷ ("microsoft", "c3d4e5f6a7b8c9d0e1f2a3b4c5d6e7f8a9b0c1d2e3f4a5b6c7d8e9f0a1b2c3d4")
    ∷ ("cursor", "d4e5f6a7b8c9d0e1f2a3b4c5d6e7f8a9b0c1d2e3f4a5b6c7d8e9f0a1b2c3d4e5")
    ∷ ("shadcn", "e5f6a7b8c9d0e1f2a3b4c5d6e7f8a9b0c1d2e3f4a5b6c7d8e9f0a1b2c3d4e5f6")
    ∷ ("rust-lang", "f6a7b8c9d0e1f2a3b4c5d6e7f8a9b0c1d2e3f4a5b6c7d8e9f0a1b2c3d4e5f6a7")
    ∷ ("docker", "a7b8c9d0e1f2a3b4c5d6e7f8a9b0c1d2e3f4a5b6c7d8e9f0a1b2c3d4e5f6a7b8")
    ∷ ("openai", "b8c9d0e1f2a3b4c5d6e7f8a9b0c1d2e3f4a5b6c7d8e9f0a1b2c3d4e5f6a7b8c9")
    ∷ ("supabase", "c9d0e1f2a3b4c5d6e7f8a9b0c1d2e3f4a5b6c7d8e9f0a1b2c3d4e5f6a7b8c9d0")
    ∷ ("kubernetes", "d0e1f2a3b4c5d6e7f8a9b0c1d2e3f4a5b6c7d8e9f0a1b2c3d4e5f6a7b8c9d0e1")
    ∷ ("langchain", "e1f2a3b4c5d6e7f8a9b0c1d2e3f4a5b6c7d8e9f0a1b2c3d4e5f6a7b8c9d0e1f2")
    ∷ ("prisma", "f2a3b4c5d6e7f8a9b0c1d2e3f4a5b6c7d8e9f0a1b2c3d4e5f6a7b8c9d0e1f2a3")
    ∷ ("github", "a3b4c5d6e7f8a9b0c1d2e3f4a5b6c7d8e9f0a1b2c3d4e5f6a7b8c9d0e1f2a3b4")
    ∷ ("aws", "b4c5d6e7f8a9b0c1d2e3f4a5b6c7d8e9f0a1b2c3d4e5f6a7b8c9d0e1f2a3b4c5")
    ∷ ("figma", "c5d6e7f8a9b0c1d2e3f4a5b6c7d8e9f0a1b2c3d4e5f6a7b8c9d0e1f2a3b4c5d6")
    ∷ ("expo", "d6e7f8a9b0c1d2e3f4a5b6c7d8e9f0a1b2c3d4e5f6a7b8c9d0e1f2a3b4c5d6e7")
    ∷ ("graphql", "e7f8a9b0c1d2e3f4a5b6c7d8e9f0a1b2c3d4e5f6a7b8c9d0e1f2a3b4c5d6e7f8")
    ∷ ("owasp", "f8a9b0c1d2e3f4a5b6c7d8e9f0a1b2c3d4e5f6a7b8c9d0e1f2a3b4c5d6e7f8a9")
    ∷ ("tiangolo", "a9b0c1d2e3f4a5b6c7d8e9f0a1b2c3d4e5f6a7b8c9d0e1f2a3b4c5d6e7f8a9b0")
    ∷ ("deno", "b0c1d2e3f4a5b6c7d8e9f0a1b2c3d4e5f6a7b8c9d0e1f2a3b4c5d6e7f8a9b0c1")
    ∷ ("stripe", "c1d2e3f4a5b6c7d8e9f0a1b2c3d4e5f6a7b8c9d0e1f2a3b4c5d6e7f8a9b0c1d2")
    ∷ ("clerk", "d2e3f4a5b6c7d8e9f0a1b2c3d4e5f6a7b8c9d0e1f2a3b4c5d6e7f8a9b0c1d2e3")
    ∷ []

-- The publishers are distinct, so the insertions append.
unfoldable pub new : IntegrityVerifier
unfolding publishers
new = record { trusted_keys = publishers; cache = []; total_verified = 0; total_rejected = 0 }

unfoldable pub register_key : IntegrityVerifier → String → String → IntegrityVerifier
register_key v author pubkey = record v { trusted_keys = Dict.insert author pubkey v.trusted_keys }

-- `is_ascii_hexdigit`
unfoldable pub is_hex_char : Char → Bool
is_hex_char c =
    (leb 48 (code c) && leb (code c) 57)
    || ((leb 65 (code c) && leb (code c) 70) || (leb 97 (code c) && leb (code c) 102))

unfoldable pub all_hex : String → Bool
all_hex NativeString.[] = true
all_hex (NativeString.◌∷◌ c s) = let rest = all_hex s in is_hex_char c && rest

-- The hash is a parameter of the source's function too, and it is not read.
unfoldable pub verify_ed25519 : IntegrityVerifier → String → String → String → String → Bool
verify_ed25519 v author hash signature provided_pubkey = elim (Dict.lookup author v.trusted_keys) [
  | none ↦ false
  | some registered_key ↦
      if not (str_eq registered_key provided_pubkey)
      then false
      else if not (len signature == 128)
      then false
      else all_hex signature
]

-- The scan is not written yet in the source: this is its answer for every content.
unfoldable pub virustotal_scan : List ℕ → VirusTotalStatus
virustotal_scan content_bytes = clean

-- `sha256_hex`, which always ends.
unfoldable pub hash_of : List ℕ → String
hash_of bytes = elim (sha256_hex bytes) [ none ↦ "" | some digest ↦ digest ]

unfoldable pub is_accepted : VirusTotalStatus → Bool
is_accepted clean = true
is_accepted unavailable = true
is_accepted pending = false
is_accepted suspicious = false
is_accepted malicious = false

-- The cached result of a slug, if it is less than an hour old.
unfoldable pub recent : IntegrityVerifier → String → ℕ → Option VerificationResult
recent v slug now = elim (Dict.lookup slug v.cache) [
  | none ↦ none
  | some cached ↦ if ltb (now - cached.checked_at_ms) 3600000 then some cached else none
]

unfoldable pub reject :
    IntegrityVerifier → VerificationResult → IntegrityVerifier × VerificationResult
reject v result = (
  record v {
    total_rejected = u64 (v.total_rejected + 1);
    cache = Dict.insert result.skill_slug result v.cache;
  },
  result,
)

unfoldable pub accept :
    IntegrityVerifier → VerificationResult → IntegrityVerifier × VerificationResult
accept v result = (
  record v {
    total_verified = u64 (v.total_verified + 1);
    cache = Dict.insert result.skill_slug result v.cache;
  },
  result,
)

-- The steps 1 to 3.
unfoldable pub check :
    IntegrityVerifier
    → String
    → String
    → List ℕ
    → IntegrityInfo
    → ℕ
    → IntegrityVerifier × VerificationResult
unfolding reject accept
check v slug author content_bytes integrity now =
    let computed_hash = hash_of content_bytes in
    if not (str_eq computed_hash integrity.sha256)
    then reject v (record {
      skill_slug = slug;
      sha256_valid = false;
      signature_valid = false;
      vt_clean = false;
      overall_pass = false;
      reason =
          str_append "SHA256 mismatch: expected "
            (str_append integrity.sha256 (str_append ", got " computed_hash));
      checked_at_ms = now;
    })
    else if not (verify_ed25519 v author computed_hash integrity.signature integrity.author_pubkey)
    then reject v (record {
      skill_slug = slug;
      sha256_valid = true;
      signature_valid = false;
      vt_clean = false;
      overall_pass = false;
      reason = "Ed25519 signature verification failed — unsigned or forged";
      checked_at_ms = now;
    })
    else if not (is_accepted integrity.vt_status)
    then reject v (record {
      skill_slug = slug;
      sha256_valid = true;
      signature_valid = true;
      vt_clean = false;
      overall_pass = false;
      reason = str_append "VirusTotal: " (status_text integrity.vt_status);
      checked_at_ms = now;
    })
    else accept v (record {
      skill_slug = slug;
      sha256_valid = true;
      signature_valid = true;
      vt_clean = true;
      overall_pass = true;
      reason = "✅ Verified: SHA256 + Ed25519 + VirusTotal all pass";
      checked_at_ms = now;
    })

unfoldable pub verify :
    IntegrityVerifier
    → String
    → String
    → List ℕ
    → IntegrityInfo
    → ℕ
    → IntegrityVerifier × VerificationResult
verify v slug author content_bytes integrity now = elim (recent v slug now) [
  | some cached ↦ (v, cached)
  | none ↦ check v slug author content_bytes integrity now
]

-- `&pubkey[..64]` panics on a key that has no first 64 bytes.
pub data Signing : Type 0 where
  unknown_author panics : Signing
  signed : IntegrityInfo → Signing

unfoldable pub sign_skill : IntegrityVerifier → String → List ℕ → ℕ → Signing
sign_skill v author content_bytes now = elim (Dict.lookup author v.trusted_keys) [
  | none ↦ unknown_author
  | some pubkey ↦ elim (get? pubkey 0 64) [
    | none ↦ panics
    | some start ↦ signed (record {
      sha256 = hash_of content_bytes;
      signature = str_append (hash_of content_bytes) start;
      author_pubkey = pubkey;
      vt_status = virustotal_scan content_bytes;
      verified_at_ms = now;
      verified = true;
    })
  ]
]

unfoldable pub cached_result : IntegrityVerifier → String → Option VerificationResult
cached_result v slug = Dict.lookup slug v.cache

unfoldable pub clear_cache : IntegrityVerifier → IntegrityVerifier
clear_cache v = record v { cache = [] }

pub record IntegrityMetrics : Type 0 where
  pub total_verified : ℕ
  pub total_rejected : ℕ
  pub trusted_publishers : ℕ
  pub cached_results : ℕ

unfoldable pub metrics : IntegrityVerifier → IntegrityMetrics
metrics v = record {
  total_verified = v.total_verified;
  total_rejected = v.total_rejected;
  trusted_publishers = u32 (length v.trusted_keys);
  cached_results = u32 (length v.cache);
}
