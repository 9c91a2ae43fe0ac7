-- ===== src/Marketplace/Tests.antt =====
-- The marketplace on its own listings.
use ughi.Prelude.{◌+◌, ◌≡◌, refl, true, false, some, find, count, any, ok}
use ughi.Marketplace.{
  SkillListing, new, empty, builtins, publish, publish_all, development, has_id, is_named, install,
  uninstall,
}
use ughi.Marketplace.Listings.{install_twice}
use ughi.SkillsRegistry.Sha256.{hex}

abbrev browser : SkillListing
browser = record {
  id = 1;
  name = "advanced-browser";
  version = "1.0.0";
  author = "UGHI-core";
  description = "Full Playwright-level browser automation";
  download_url = "https://clawhub.UGHI.ai/skills/advanced-browser/1.0.0";
  checksum_sha256 = "sha256:0000000000001eef";
  downloads = 0;
  verified = true;
  category = development;
  size_bytes = 0;
}

browser_listed : find (has_id 1) new.listings ≡ some browser
unfolding new empty builtins publish publish_all hex
browser_listed = refl

install_twice_example :
    ((install (install new 1).0 1).1 ≡ ok tt)
    × (count (is_named "advanced-browser") (install (install new 1).0 1).0.installed
        ≡ count (is_named "advanced-browser") new.installed + 2)
    × (any
          (is_named "advanced-browser")
          (uninstall (install (install new 1).0 1).0 "advanced-browser").0.installed
        ≡ false)
install_twice_example = install_twice new 1 browser browser_listed
