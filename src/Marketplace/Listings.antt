-- ===== src/Marketplace/Listings.antt =====
-- The ids of the listings, and what a second install does.
use ughi.Prelude.{
  String, ℕ, ◌+◌, ◌≡◌, refl, ap, ◌∙◌, eq_refl, false, not, some, List, [], ◌∷◌, arith, inl, inr,
  Bool-cases, find, count, keep, ok, count-append, ◌==◌, any,
}
use mathlib.Core.Option
use ughi.Prelude.Ids.{write_id}
use ughi.Marketplace.{
  Marketplace, SkillListing, InstalledSkill, has_id, is_named, count_download, install, uninstall,
}

find-write_id :
    (k : ℕ) (ls : List SkillListing) (l : SkillListing)
    → find (has_id k) ls ≡ some l
    → find (has_id k) (write_id (λ x. x.id) k count_download ls) ≡ some (count_download l)
unfolding write_id count_download
find-write_id k [] l h = absurd (ground (arith, h))
find-write_id k (x ∷ ls) l h = elim (Bool-cases (x.id == k)) [
  | inl e ↦ rw (write_id, e) (rw e (ap (Option.map count_download) (rw e at h)))
  | inr e ↦ rw (write_id, e) (rw e (find-write_id k ls l (rw e at h)))
]

count-install :
    (m : Marketplace) (k : ℕ) (l : SkillListing)
    → find (has_id k) m.listings ≡ some l
    → (count (is_named l.name) (install m k).0.installed ≡ count (is_named l.name) m.installed + 1)
      × (find (has_id k) (install m k).0.listings ≡ some (count_download l))
      × ((install m k).1 ≡ ok tt)
unfolding install count_download
count-install m k l g =
    rw (install, g)
      (
        count-append (is_named l.name) m.installed _ ∙ rw (eq_refl l.name) refl,
        find-write_id k m.listings l g,
        refl,
      )

any-keep :
    (name : String) (ss : List InstalledSkill)
    → any (is_named name) (keep (λ s. not (is_named name s)) ss) ≡ false
any-keep name [] = refl
any-keep name (s ∷ ss) = elim (Bool-cases (is_named name s)) [
  | inl e ↦ rw e (any-keep name ss)
  | inr e ↦ rw e (rw e (any-keep name ss))
]

-- A second install of a listed skill succeeds as the first does, and leaves two more records of the skill's name;
-- one `uninstall` of the name takes off all of them.
pub install_twice :
    (m : Marketplace) (k : ℕ) (l : SkillListing)
    → find (has_id k) m.listings ≡ some l
    → ((install (install m k).0 k).1 ≡ ok tt)
      × (count (is_named l.name) (install (install m k).0 k).0.installed
          ≡ count (is_named l.name) m.installed + 2)
      × (any (is_named l.name) (uninstall (install (install m k).0 k).0 l.name).0.installed ≡ false)
unfolding uninstall count_download
install_twice m k l g =
    let one = count-install m k l g in
    let two = count-install (install m k).0 k (count_download l) one.1 in
    (two.2, omega (arith, one.0, two.0), any-keep l.name (install (install m k).0 k).0.installed)
