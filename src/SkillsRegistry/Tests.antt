-- ===== src/SkillsRegistry/Tests.antt =====
-- The hasher and the verifier on concrete calls.
use ughi.Prelude.{ℕ, ◌≡◌, ◌⊎◌, refl, String, false, true, none, some, List, [], ◌∷◌, arith}
use ughi.SkillsRegistry.Sha256
use ughi.SkillsRegistry.Sha256.{Sha256, sha256_hex, digest}
use ughi.SkillsRegistry.Sha256.Streaming.{feed}
use ughi.SkillsRegistry.Sha256.Padding.{padded, sha256_hex-padded}
use ughi.SkillsRegistry.IntegrityVerifier.{
  IntegrityInfo, new, publishers, recent, verify, unverified, hash_of, all_hex, is_hex_char,
  sign_skill, signed, virustotal_scan, clean,
}
use ughi.SkillsRegistry.IntegrityVerifier.Rules.{IsProper, verify-Checked}
use ughi.SkillsRegistry.IntegrityVerifier.Gate.{
  Checked, verify_goes_by_slug, verify_accepts_forged, verify-sign_skill,
}
use mathlib.Core.Option
use ughi.Prelude.Dict

abbrev a_bytes : List ℕ
a_bytes = 97 ∷ []

abbrev bc_bytes : List ℕ
bc_bytes = 98 ∷ 99 ∷ []

sha256_hex-padded_example :
    sha256_hex bc_bytes ≡ some (digest (feed Sha256.new (padded bc_bytes)).state)
sha256_hex-padded_example = sha256_hex-padded bc_bytes

nothing_cached : recent new "nextjs" 5000 ≡ none
unfolding recent new Dict.lookup
nothing_cached = refl

verify-Checked_example :
    (IsProper new "vercel" bc_bytes unverified
      × Checked new
          (verify new "nextjs" "vercel" bc_bytes unverified 5000).0
          "nextjs"
          5000
          true
          (verify new "nextjs" "vercel" bc_bytes unverified 5000).1)
    ⊎ ((¬ IsProper new "vercel" bc_bytes unverified)
        × Checked new
            (verify new "nextjs" "vercel" bc_bytes unverified 5000).0
            "nextjs"
            5000
            false
            (verify new "nextjs" "vercel" bc_bytes unverified 5000).1)
unfolding new Dict.lookup
verify-Checked_example =
    verify-Checked new "nextjs" "vercel" bc_bytes unverified 5000
      (λ r e. absurd (Option.none-ne-some r e))

-- The first call is about content that fails, the second about other content of another author.
verify_goes_by_slug_example :
    verify
      (verify new "nextjs" "vercel" bc_bytes unverified 5000).0
      "nextjs"
      "docker"
      a_bytes
      unverified
      9000
    ≡ verify new "nextjs" "vercel" bc_bytes unverified 5000
verify_goes_by_slug_example =
    verify_goes_by_slug new "nextjs" "vercel" bc_bytes unverified 5000 "docker" a_bytes unverified
      9000 nothing_cached (omega arith)

abbrev vercel_key : String
vercel_key = "a1b2c3d4e5f6a7b8c9d0e1f2a3b4c5d6e7f8a9b0c1d2e3f4a5b6c7d8e9f0a1b2"

abbrev forgery : String
forgery =
    "00000000000000000000000000000000000000000000000000000000000000000000000000000000000000000000000000000000000000000000000000000000"

vercel_known : Dict.lookup "vercel" new.trusted_keys ≡ some vercel_key
unfolding new publishers Dict.lookup
vercel_known = refl

verify_accepts_forged_example :
    (verify new "nextjs" "vercel" bc_bytes
      (record {
        sha256 = hash_of bc_bytes;
        signature = forgery;
        author_pubkey = vercel_key;
        vt_status = virustotal_scan bc_bytes;
        verified_at_ms = 0;
        verified = true;
      })
      5000).1.overall_pass
    ≡ true
verify_accepts_forged_example =
    verify_accepts_forged new "nextjs" "vercel" vercel_key bc_bytes forgery 0 5000 nothing_cached
      vercel_known refl (unfold all_hex in unfold is_hex_char in refl)

verify-sign_skill_example :
    (info : IntegrityInfo) × (sign_skill new "vercel" bc_bytes 4000 ≡ signed info)
    × ((verify new "nextjs" "vercel" bc_bytes info 5000).1.overall_pass ≡ true)
    × (info.vt_status ≡ clean)
verify-sign_skill_example =
    verify-sign_skill new "nextjs" "vercel" vercel_key vercel_key bc_bytes 4000 5000 nothing_cached
      vercel_known refl refl (unfold all_hex in unfold is_hex_char in refl)
