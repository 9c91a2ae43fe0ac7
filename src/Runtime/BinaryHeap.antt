-- ===== src/Runtime/BinaryHeap.antt =====
-- What the scheduler relies on of `std::collections::BinaryHeap<SchedulerEntry>`: an interface with
-- the documented behaviour. The order of the backing vector, and the choice between greatest
-- entries that compare equal, are left open.
use mathlib.Core.Option
use ughi.Prelude.{
  ℕ, ◌+◌, ◌≡◌, Bool, true, List, [], Option, none, some, length, count, unit, count_all, arith,
}
use ughi.Runtime.SchedulerEntry.{SchedulerEntry, is_less}

pub record BinaryHeap (Q : Type 0) : Type 0 where
  -- `drain().collect()`
  pub to_vec : Q → List SchedulerEntry
  -- `BinaryHeap::with_capacity`
  pub empty : Q
  -- `BinaryHeap::from`
  pub from_vec : List SchedulerEntry → Q
  pub push : SchedulerEntry → Q → Q
  pub pop : Q → Option (SchedulerEntry × Q)
  pub to_vec-empty : to_vec empty ≡ []
  -- The heap holds the same entries, as often: so says every test.
  pub count-from_vec :
      (p : SchedulerEntry → Bool) (es : List SchedulerEntry)
      → count p (to_vec (from_vec es)) ≡ count p es
  pub count-push :
      (p : SchedulerEntry → Bool) (e : SchedulerEntry) (q : Q)
      → count p (to_vec (push e q)) ≡ unit (p e) + count p (to_vec q)
  pub pop-none : (q : Q) → pop q ≡ none → to_vec q ≡ []
  pub count-pop :
      (p : SchedulerEntry → Bool) (q r : Q) (e : SchedulerEntry)
      → pop q ≡ some (e, r)
      → count p (to_vec q) ≡ unit (p e) + count p (to_vec r)
  -- No entry is greater than the one that comes out.
  pub pop_greatest :
      (q r : Q) (e : SchedulerEntry) → pop q ≡ some (e, r) → count (is_less e) (to_vec q) ≡ 0

module _ {Q : Type 0} ⦃h : BinaryHeap Q⦄ where
  -- `len`
  unfoldable pub len : Q → ℕ
  len q = length (h.to_vec q)

  -- `peek`
  unfoldable pub peek : Q → Option SchedulerEntry
  peek q = Option.map (λ r. r.0) (h.pop q)

  pub len-push : (e : SchedulerEntry) (q : Q) → len (h.push e q) ≡ 1 + len q
  unfolding len
  len-push e q = omega (
    arith,
    count_all (h.to_vec (h.push e q)),
    count_all (h.to_vec q),
    h.count-push (λ _. true) e q,
  )

  pub len-pop : (q r : Q) (e : SchedulerEntry) → h.pop q ≡ some (e, r) → len q ≡ 1 + len r
  unfolding len
  len-pop q r e p =
      omega (arith, count_all (h.to_vec q), count_all (h.to_vec r), h.count-pop (λ _. true) q r e p)

module _ {Q : Type 0} (h : BinaryHeap Q) where
  pub len-empty : len ⦃h = h⦄ h.empty ≡ 0
  unfolding len
  len-empty = rw h.to_vec-empty

  pub len-from_vec : (es : List SchedulerEntry) → len ⦃h = h⦄ (h.from_vec es) ≡ length es
  unfolding len
  len-from_vec es =
      omega
        (arith, count_all (h.to_vec (h.from_vec es)), count_all es, h.count-from_vec (λ _. true) es)
