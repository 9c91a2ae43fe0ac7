-- ===== src/SkillsRegistry/SkillsShClient/Tests.antt =====
-- The client on its own catalogue.
use ughi.Prelude.{◌≡◌, refl, String, false, none, some, List, [], ◌∷◌, find, any, err, ok}
use ughi.Prelude.Dict
use ughi.SkillsRegistry.Catalog.{
  TopSkill, frontend, database, top_skills, first_skills, second_skills, third_skills,
  verified_authors,
}
use ughi.SkillsRegistry.IntegrityVerifier
use ughi.SkillsRegistry.IntegrityVerifier.{
  recent, unverified, publishers, sign_skill, all_hex, is_hex_char,
}
use ughi.SkillsRegistry.SkillsShClient.{
  SkillEntry, InstalledSkill, new, load_from, load_entry, integrity_of, content, has_slug,
  is_install_of, is_quarantined, is_verified_author, install, uninstall,
}
use ughi.SkillsRegistry.SkillsShClient.Installing.{
  Admitted, install-Admitted, Call, installs, quarantines, run, Once, run-Once,
}
use ughi.SkillsRegistry.SkillsShClient.Trust.{install_unsigned, install_signed}

abbrev drizzle : TopSkill
drizzle = record {
  slug = "drizzle-orm-patterns";
  description = "Drizzle ORM query patterns";
  author = "drizzle";
  category = database;
  installs = 13210;
}

abbrev vercel : TopSkill
vercel = record {
  slug = "nextjs-app-router";
  description = "Next.js 15 App Router patterns";
  author = "vercel";
  category = frontend;
  installs = 45312;
}

abbrev drizzle_entry : SkillEntry
drizzle_entry = load_entry IntegrityVerifier.new 24 0 drizzle

abbrev vercel_entry : SkillEntry
vercel_entry = load_entry IntegrityVerifier.new 1 0 vercel

drizzle_cached : find (has_slug "drizzle-orm-patterns") (new 0).cached ≡ some drizzle_entry
unfolding new load_from load_entry top_skills first_skills second_skills third_skills
drizzle_cached = refl

drizzle_unsigned : drizzle_entry.integrity ≡ unverified
unfolding load_entry sign_skill integrity_of IntegrityVerifier.new publishers Dict.lookup
drizzle_unsigned = refl

drizzle_unchecked : recent (new 0).verifier drizzle_entry.slug 9 ≡ none
unfolding recent new load_entry IntegrityVerifier.new Dict.lookup
drizzle_unchecked = refl

install_unsigned_example : (x : String) × ((install (new 0) "drizzle-orm-patterns" 9).1 ≡ err x)
install_unsigned_example =
    install_unsigned (new 0) "drizzle-orm-patterns" drizzle_entry 9 drizzle_cached drizzle_unsigned
      drizzle_unchecked

vercel_cached : find (has_slug "nextjs-app-router") (new 0).cached ≡ some vercel_entry
unfolding new load_from load_entry top_skills first_skills second_skills third_skills
vercel_cached = refl

vercel_trusted : is_quarantined vercel_entry.safety_score ≡ false
unfolding load_entry is_quarantined is_verified_author verified_authors
vercel_trusted = refl

nothing_installed : any (is_install_of "nextjs-app-router") (new 0).installed ≡ false
unfolding new
nothing_installed = refl

vercel_signed :
    vercel_entry.integrity
    ≡ integrity_of (
        sign_skill
          (new 0).verifier
          vercel_entry.author
          (content vercel_entry.slug vercel_entry.author vercel_entry.version)
          0)
unfolding new load_entry
vercel_signed = refl

vercel_unchecked : recent (new 0).verifier vercel_entry.slug 9 ≡ none
unfolding recent new load_entry IntegrityVerifier.new Dict.lookup
vercel_unchecked = refl

abbrev vercel_key : String
vercel_key = "a1b2c3d4e5f6a7b8c9d0e1f2a3b4c5d6e7f8a9b0c1d2e3f4a5b6c7d8e9f0a1b2"

vercel_known : Dict.lookup vercel_entry.author (new 0).verifier.trusted_keys ≡ some vercel_key
unfolding new load_entry IntegrityVerifier.new publishers Dict.lookup
vercel_known = refl

install_signed_example :
    (i : InstalledSkill) × ((install (new 0) "nextjs-app-router" 9).1 ≡ ok i)
    × (i.entry ≡ vercel_entry)
install_signed_example =
    install_signed (new 0) "nextjs-app-router" vercel_entry vercel_key vercel_key 0 9 vercel_cached
      vercel_trusted nothing_installed vercel_signed vercel_unchecked vercel_known refl refl
      (unfold all_hex in unfold is_hex_char in refl)

vercel_install :
    (i : InstalledSkill) × ((install (new 0) "nextjs-app-router" 9).1 ≡ ok i)
    × (i.entry ≡ vercel_entry)
vercel_install =
    install_signed (new 0) "nextjs-app-router" vercel_entry vercel_key vercel_key 0 9 vercel_cached
      vercel_trusted nothing_installed vercel_signed vercel_unchecked vercel_known refl refl
      (unfold all_hex in unfold is_hex_char in refl)

install-Admitted_example : Admitted (new 0) "nextjs-app-router" 9 vercel_install.0
install-Admitted_example =
    install-Admitted (new 0) "nextjs-app-router" 9 vercel_install.0 vercel_install.1

abbrev calls : List Call
calls =
    installs "nextjs-app-router" 9
    ∷ installs "nextjs-app-router" 10
    ∷ quarantines "nextjs-app-router"
    ∷ []

none_yet : (new 0).installed ≡ []
unfolding new
none_yet = refl

run-Once_example :
    Once (run (new 0) calls)
    × (any
          (is_install_of "nextjs-app-router")
          (uninstall (run (new 0) calls) "nextjs-app-router").0.installed
        ≡ false)
run-Once_example = run-Once (new 0) calls "nextjs-app-router" none_yet
