-- ===== src/SkillsRegistry/SkillsShClient.antt =====
-- The client of crates/ughi-skills-registry/src/client.rs over the verifier. `str::to_lowercase` is a
-- parameter of the search; ratings, which are floats, are left out, and the clock is read once a call.
use ughi.Prelude.{
  ℕ, ◌+◌, String, str_append, str_eq, Bool, true, false, not, ◌||◌, Option, none, some, List, [],
  ◌∷◌, ◌++◌, ltb, leb, ◌==◌, if◌then◌else◌, Result, ok, err, u32, u64, sub_u64, length, count, any,
  keep, find, take, as_bytes, contains, dashes_to_spaces,
}
use ughi.SkillsRegistry.Catalog.{
  SkillCategory, frontend, backend, dev_ops, ai, data_science, security, mobile, design, testing,
  infra, database, auth, payments, analytics, general, position, category_text, TopSkill,
  top_skills, verified_authors,
}
use ughi.SkillsRegistry.IntegrityVerifier
use ughi.SkillsRegistry.IntegrityVerifier.{
  IntegrityInfo, IntegrityVerifier, VerificationResult, Signing, unverified, unknown_author, panics,
  signed, sign_skill, verify,
}
pub mod Installing
pub mod Trust
mod Tests

pub data SafetyScore : Type 0 where
  verified_author trusted community unknown quarantined : SafetyScore

unfoldable pub score_text : SafetyScore → String
score_text verified_author = "✓ Verified"
score_text trusted = "★ Trusted"
score_text community = "○ Community"
score_text unknown = "? Unknown"
score_text quarantined = "⊘ Quarantined"

unfoldable pub is_quarantined : SafetyScore → Bool
is_quarantined verified_author = false
is_quarantined trusted = false
is_quarantined community = false
is_quarantined unknown = false
is_quarantined quarantined = true

pub record SkillEntry : Type 0 where
  pub id : ℕ
  pub name : String
  pub slug : String
  pub description : String
  pub author : String
  pub source_url : String
  pub install_cmd : String
  pub category : SkillCategory
  pub installs : ℕ
  pub verified : Bool
  pub safety_score : SafetyScore
  pub version : String
  pub last_updated_ms : ℕ
  pub integrity : IntegrityInfo

pub record SkillStub : Type 0 where
  pub id : ℕ
  pub slug : String
  pub category : SkillCategory
  pub installs : ℕ
  pub verified : Bool

pub data InstallStatus : Type 0 where
  available downloading verifying sandboxed installed_skill quarantined_skill failed : InstallStatus

pub record InstalledSkill : Type 0 where
  pub entry : SkillEntry
  pub status : InstallStatus
  pub sandbox_path : String
  pub capability_tokens : List String

pub record SkillsShClient : Type 0 where
  pub cached : List SkillEntry
  pub catalog_size : ℕ
  pub installed : List InstalledSkill
  pub last_sync_ms : ℕ
  pub sync_interval_ms : ℕ
  pub stubs : List SkillStub
  pub verifier : IntegrityVerifier

-- `format!("// {} by {} v{}", ..)` as bytes: what stands for the downloaded skill.
unfoldable pub content : String → String → String → List ℕ
content slug author version = as_bytes (
    str_append "// "
      (str_append slug (str_append " by " (str_append author (str_append " v" version)))))

-- The keys of the publishers have 64 bytes, so that signing does not panic here.
unfoldable pub integrity_of : Signing → IntegrityInfo
integrity_of unknown_author = unverified
integrity_of panics = unverified
integrity_of (signed info) = info

unfoldable pub is_verified_author : String → Bool
is_verified_author author = any (λ a. str_eq a author) verified_authors

unfoldable pub load_entry : IntegrityVerifier → ℕ → ℕ → TopSkill → SkillEntry
load_entry v i now s = record {
  id = i + 1;
  name = dashes_to_spaces s.slug;
  slug = s.slug;
  description = s.description;
  author = s.author;
  source_url = str_append "https://skills.sh/skills/" s.slug;
  install_cmd = str_append "npx skills install " s.slug;
  category = s.category;
  installs = s.installs;
  verified = is_verified_author s.author;
  safety_score = if is_verified_author s.author then verified_author else trusted;
  version = "1.0.0";
  last_updated_ms = now;
  integrity = integrity_of (sign_skill v s.author (content s.slug s.author "1.0.0") now);
}

unfoldable pub load_from : IntegrityVerifier → ℕ → ℕ → List TopSkill → List SkillEntry
load_from v i now [] = []
load_from v i now (s ∷ ss) = load_entry v i now s ∷ load_from v (i + 1) now ss

unfoldable pub new : ℕ → SkillsShClient
new now = record {
  cached = load_from IntegrityVerifier.new 0 now top_skills;
  catalog_size = 79525;
  installed = [];
  last_sync_ms = 0;
  sync_interval_ms = 21600000;
  stubs = [];
  verifier = IntegrityVerifier.new;
}

pub record SyncResult : Type 0 where
  pub total_skills : ℕ
  pub cached_skills : ℕ
  pub new_discovered : ℕ
  pub updated : ℕ
  pub sync_time_ms : ℕ

unfoldable pub sync : SkillsShClient → ℕ → SkillsShClient × SyncResult
sync c now =
    let size = u64 (c.catalog_size + 47) in
    (
      record c { last_sync_ms = now; catalog_size = size },
      record {
        total_skills = size;
        cached_skills = length c.cached;
        new_discovered = 47;
        updated = 12;
        sync_time_ms = 230;
      },
    )

unfoldable pub needs_sync : SkillsShClient → ℕ → Bool
needs_sync c now = leb c.sync_interval_ms (sub_u64 now c.last_sync_ms)

unfoldable pub search : (String → String) → SkillsShClient → String → List SkillEntry
search lower c query =
    let q = lower query in
    keep
      (λ s.
        contains (lower s.slug) q
        || (contains (lower s.description) q
            || (contains (lower s.author) q || contains (lower (category_text s.category)) q)))
      c.cached

-- `sort_by` with the order turned round, which is stable.
unfoldable pub insert_by_installs : SkillEntry → List SkillEntry → List SkillEntry
insert_by_installs e [] = e ∷ []
insert_by_installs e (x ∷ xs) =
    let rest = insert_by_installs e xs in if leb x.installs e.installs then e ∷ x ∷ xs else x ∷ rest

unfoldable pub sort_by_installs : List SkillEntry → List SkillEntry
sort_by_installs [] = []
sort_by_installs (e ∷ es) = insert_by_installs e (sort_by_installs es)

unfoldable pub leaderboard : SkillsShClient → ℕ → List SkillEntry
leaderboard c limit = take limit (sort_by_installs c.cached)

unfoldable pub leaderboard_by_category : SkillsShClient → SkillCategory → ℕ → List SkillEntry
leaderboard_by_category c cat limit =
    take limit (sort_by_installs (keep (λ s. position s.category == position cat) c.cached))

abbrev pub has_slug : String → SkillEntry → Bool
has_slug slug s = str_eq s.slug slug

abbrev pub is_install_of : String → InstalledSkill → Bool
is_install_of slug s = str_eq s.entry.slug slug

unfoldable pub resolve : SkillsShClient → String → Option SkillEntry
resolve c slug = find (has_slug slug) c.cached

-- The verification of the entry's content.
unfoldable pub verify_entry :
    SkillsShClient → SkillEntry → ℕ → IntegrityVerifier × VerificationResult
verify_entry c e now =
    verify c.verifier e.slug e.author (content e.slug e.author e.version) e.integrity now

unfoldable pub not_cached : String → String
not_cached slug = str_append "Skill '" (str_append slug "' not in cache.")

unfoldable pub verify_skill :
    SkillsShClient → String → ℕ → SkillsShClient × Result String VerificationResult
verify_skill c slug now = elim (find (has_slug slug) c.cached) [
  | none ↦ (c, err (not_cached slug))
  | some e ↦ let checked = verify_entry c e now in (record c { verifier = checked.0 }, ok checked.1)
]

unfoldable pub capabilities : SkillCategory → List String
capabilities frontend = "browser_control" ∷ "file_system" ∷ []
capabilities design = "browser_control" ∷ "file_system" ∷ []
capabilities backend = "code_executor" ∷ "file_system" ∷ []
capabilities database = "code_executor" ∷ "file_system" ∷ []
capabilities data_science = "code_executor" ∷ "file_system" ∷ []
capabilities dev_ops = "terminal_command" ∷ "file_system" ∷ []
capabilities infra = "terminal_command" ∷ "file_system" ∷ []
capabilities ai = "web_search" ∷ "memory_read_write" ∷ []
capabilities security = "code_executor" ∷ []
capabilities testing = "code_executor" ∷ "terminal_command" ∷ []
capabilities auth = "web_search" ∷ "file_system" ∷ []
capabilities payments = "web_search" ∷ "file_system" ∷ []
capabilities mobile = "file_system" ∷ []
capabilities analytics = "file_system" ∷ []
capabilities general = "file_system" ∷ []

-- A write through `iter_mut().find`.
unfoldable pub update_slug : String → (SkillEntry → SkillEntry) → List SkillEntry → List SkillEntry
update_slug slug f [] = []
update_slug slug f (s ∷ ss) =
    let rest = update_slug slug f ss in if has_slug slug s then f s ∷ ss else s ∷ rest

unfoldable pub count_install : SkillEntry → SkillEntry
count_install e = record e { installs = u64 (e.installs + 1) }

unfoldable pub about : String → String → String
about slug what = str_append "Skill '" (str_append slug what)

unfoldable pub blocked : String → String → String
blocked slug reason =
    str_append "INTEGRITY CHECK FAILED for '"
      (str_append slug (str_append "': " (str_append reason ". Install blocked.")))

-- After the gate.
unfoldable pub add_installed :
    SkillsShClient → String → SkillEntry → SkillsShClient × InstalledSkill
add_installed c slug e =
    let skill : InstalledSkill = record {
      entry = e;
      status = installed_skill;
      sandbox_path = str_append "skills/skills-sh/" slug;
      capability_tokens = capabilities e.category;
    } in
    (
      record c {
        installed = c.installed ++ (skill ∷ []);
        cached = update_slug slug count_install c.cached;
      },
      skill,
    )

unfoldable pub install : SkillsShClient → String → ℕ → SkillsShClient × Result String InstalledSkill
install c slug now = elim (find (has_slug slug) c.cached) [
  | none ↦ (c, err (about slug "' not in cache. Run 'ughi skills update' first."))
  | some e ↦
      let checked = verify_entry c e now in
      let passed = add_installed (record c { verifier = checked.0 }) slug e in
      if is_quarantined e.safety_score
      then (c, err (about slug "' is quarantined. Cannot install."))
      else if any (is_install_of slug) c.installed
      then (c, err (about slug "' is already installed."))
      else if not checked.1.overall_pass
      then (record c { verifier = checked.0 }, err (blocked slug checked.1.reason))
      else (passed.0, ok passed.1)
]

unfoldable pub uninstall : SkillsShClient → String → SkillsShClient × Bool
uninstall c slug =
    let left = keep (λ s. not (is_install_of slug s)) c.installed in
    (record c { installed = left }, ltb (length left) (length c.installed))

unfoldable pub set_quarantined : SkillEntry → SkillEntry
set_quarantined e = record e { safety_score = quarantined }

unfoldable pub mark_installed : String → List InstalledSkill → List InstalledSkill
mark_installed slug [] = []
mark_installed slug (s ∷ ss) =
    let rest = mark_installed slug ss in
    if is_install_of slug s then record s { status = quarantined_skill } ∷ ss else s ∷ rest

unfoldable pub quarantine : SkillsShClient → String → SkillsShClient
quarantine c slug = record c {
  cached = update_slug slug set_quarantined c.cached;
  installed = mark_installed slug c.installed;
}

pub record RegistryMetrics : Type 0 where
  pub all_time_total : ℕ
  pub cached_skills : ℕ
  pub installed_skills : ℕ
  pub verified_skills : ℕ
  pub quarantined_skills : ℕ
  pub last_sync_ms : ℕ

unfoldable pub metrics : SkillsShClient → RegistryMetrics
metrics c = record {
  all_time_total = c.catalog_size;
  cached_skills = u32 (length c.cached);
  installed_skills = u32 (length c.installed);
  verified_skills = u32 (count (λ s. s.verified) c.cached);
  quarantined_skills = u32 (count (λ s. is_quarantined s.safety_score) c.cached);
  last_sync_ms = c.last_sync_ms;
}
