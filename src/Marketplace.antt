-- ===== src/Marketplace.antt =====
-- The marketplace of crates/ughi-marketplace/src/registry.rs. `show` writes a number in decimal, `str::to_lowercase`
-- is a parameter of the search, and ratings, which are floats, are left out.
use ughi.Prelude.{
  ℕ, ◌+◌, ◌*◌, String, str_append, str_eq, Bool, not, ◌||◌, none, some, List, [], ◌∷◌, ◌++◌, ltb,
  ◌==◌, Result, Done, ok, err, u32, u64, length, count, keep, find, contains,
}
use ughi.Prelude.Ids.{write_id}
use ughi.SkillsRegistry.Sha256.{hex}
pub mod Listings
mod Tests

pub data SkillCategory : Type 0 where
  productivity development research communication finance creative system custom : SkillCategory

pub data InstallStatus : Type 0 where
  available downloading verifying installed_skill failed : InstallStatus

pub record SkillListing : Type 0 where
  pub id : ℕ
  pub name : String
  pub version : String
  pub author : String
  pub description : String
  pub download_url : String
  pub checksum_sha256 : String
  pub downloads : ℕ
  pub verified : Bool
  pub category : SkillCategory
  pub size_bytes : ℕ

pub record InstalledSkill : Type 0 where
  pub listing : SkillListing
  pub install_path : String
  pub status : InstallStatus

pub record Marketplace : Type 0 where
  pub listings : List SkillListing
  pub installed : List InstalledSkill
  pub next_id : ℕ

unfoldable pub publish :
    Marketplace → String → String → String → String → SkillCategory → ℕ → Marketplace × ℕ
publish m name version author desc category size =
    let listing : SkillListing = record {
      id = m.next_id;
      name = name;
      version = version;
      author = author;
      description = desc;
      download_url =
          str_append "https://clawhub.UGHI.ai/skills/" (str_append name (str_append "/" version));
      checksum_sha256 = str_append "sha256:" (hex 16 (u64 (m.next_id * 7919)));
      downloads = 0;
      verified = str_eq author "UGHI-core";
      category = category;
      size_bytes = size;
    } in
    (record m { next_id = u64 (m.next_id + 1); listings = m.listings ++ (listing ∷ []) }, m.next_id)

pub record Builtin : Type 0 where
  pub name : String
  pub version : String
  pub description : String
  pub category : SkillCategory

abbrev builtin : String → String → String → SkillCategory → Builtin
builtin name version description category = record {
  name = name;
  version = version;
  description = description;
  category = category;
}

unfoldable pub builtins : List Builtin
builtins =
    builtin "advanced-browser" "1.0.0" "Full Playwright-level browser automation" development
    ∷ builtin "code-analyzer" "1.0.0" "Static analysis + security audit for 20 languages"
        development
    ∷ builtin "email-composer" "1.0.0" "AI-powered email drafting with tone control" communication
    ∷ builtin "calendar-manager" "1.0.0" "Google/Outlook calendar integration" productivity
    ∷ builtin "pdf-processor" "1.0.0" "Extract, summarize, and generate PDFs" productivity
    ∷ builtin "image-generator" "1.0.0" "SDXL-based image generation (CPU optimized)" creative
    ∷ builtin "spreadsheet" "1.0.0" "Excel/CSV processing with formulas" productivity
    ∷ builtin "api-tester" "1.0.0" "REST/GraphQL API testing suite" development
    ∷ builtin "crypto-tracker" "1.0.0" "Real-time crypto portfolio tracking" finance
    ∷ builtin "news-aggregator" "1.0.0" "Multi-source verified news with bias detection" research
    ∷ []

unfoldable pub publish_all : Marketplace → List Builtin → Marketplace
publish_all m [] = m
publish_all m (b ∷ bs) =
    publish_all (publish m b.name b.version "UGHI-core" b.description b.category 0).0 bs

unfoldable pub empty : Marketplace
empty = record { listings = []; installed = []; next_id = 1 }

unfoldable pub new : Marketplace
unfolding builtins empty
new = publish_all empty builtins

unfoldable pub search : (String → String) → Marketplace → String → List SkillListing
search lower m query =
    let q = lower query in
    keep (λ l. contains (lower l.name) q || contains (lower l.description) q) m.listings

unfoldable pub count_download : SkillListing → SkillListing
count_download l = record l { downloads = u64 (l.downloads + 1) }

abbrev pub has_id : ℕ → SkillListing → Bool
has_id k l = l.id == k

unfoldable pub install : Marketplace → ℕ → Marketplace × Result String Done
install m skill_id = elim (find (has_id skill_id) m.listings) [
  | none ↦ (m, err "Skill not found")
  | some l ↦
      let skill : InstalledSkill = record {
        listing = count_download l;
        install_path = str_append "skills/" (str_append l.name (str_append "/" l.version));
        status = installed_skill;
      } in
      (
        record m {
          listings = write_id (λ x. x.id) skill_id count_download m.listings;
          installed = m.installed ++ (skill ∷ []);
        },
        ok tt,
      )
]

abbrev pub is_named : String → InstalledSkill → Bool
is_named name s = str_eq s.listing.name name

unfoldable pub uninstall : Marketplace → String → Marketplace × Bool
uninstall m name =
    let left = keep (λ s. not (is_named name s)) m.installed in
    (record m { installed = left }, ltb (length left) (length m.installed))

unfoldable pub total_downloads : List SkillListing → ℕ
total_downloads [] = 0
total_downloads (l ∷ ls) = l.downloads + total_downloads ls

pub record MarketplaceMetrics : Type 0 where
  pub total_listings : ℕ
  pub installed_count : ℕ
  pub downloads_count : ℕ
  pub verified_count : ℕ

unfoldable pub metrics : Marketplace → MarketplaceMetrics
metrics m = record {
  total_listings = u32 (length m.listings);
  installed_count = u32 (length m.installed);
  downloads_count = u64 (total_downloads m.listings);
  verified_count = u32 (count (λ l. l.verified) m.listings);
}
