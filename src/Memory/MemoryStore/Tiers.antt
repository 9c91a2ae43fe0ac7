-- ===== src/Memory/MemoryStore/Tiers.antt =====
-- How the two tiers work together.
use ughi.Prelude.{
  String, ℕ, ◌+◌, ◌<◌, ◌≡◌, refl, ap, ◌∙◌, eq_refl, true, some, List, [], ◌∷◌, arith, ok, ltb, leb,
  keep, u64, none, inl, inr, Option-cases, if◌then◌else◌, length,
}
use ughi.Prelude.Dict
use ughi.Prelude.Dict.{lookup-adjust}
use ughi.Memory.Types.{MemoryEntry, new_short, touch}
use ughi.Memory.ShortTerm
use ughi.Memory.ShortTerm.{ShortTermStore, get_promotable}
use ughi.Memory.ShortTerm.Reads.{get-put}
use ughi.Memory.Namespace
use ughi.Memory.Namespace.{Namespace, NamespaceRegistry, ensure, ensure_with}
use ughi.Memory.MemoryStore as Store
use ughi.Memory.MemoryStore.{
  MemoryStore, LongTerm, promotion_threshold, count_promotions, put_entry, promote_all, promote,
}

get_hit :
    {L : Type 0} (t : LongTerm L) (m : MemoryStore L) (agent_id key : String) (now : ℕ)
    (e : MemoryEntry)
    → (ShortTerm.get m.short agent_id key now).1 ≡ ok e
    → (Store.get t m agent_id key now).1 ≡ ok e
unfolding Store.get
get_hit t m agent_id key now e h = rw (Store.get, h) refl

-- An entry that was put is read back from the short-term tier, whatever the long-term tier does.
pub get-put_entry :
    {L : Type 0} (t : LongTerm L) (m : MemoryStore L) (agent_id key value : String) (now later : ℕ)
    → (Store.get t (Store.put t m agent_id key value now) agent_id key later).1
      ≡ ok (touch later (new_short agent_id key value now))
unfolding Store.put put_entry new_short ShortTerm.as_short_term
get-put_entry t m agent_id key value now later =
    get_hit t (Store.put t m agent_id key value now) agent_id key later _
      (get-put m.short (new_short agent_id key value now) later)

-- A long-term tier whose writes succeed.
abbrev pub Writable : {L : Type 0} → LongTerm L → Type 0
Writable {L} t = (l : L) (e : MemoryEntry) → (t.long_put l e).1 ≡ ok tt

-- The tier after the entries are stored in it, in their order.
abbrev pub stored : {L : Type 0} → LongTerm L → L → List MemoryEntry → L
stored t l [] = l
stored t l (e ∷ es) = stored t (t.long_put l e).0 es

-- The entries of an agent with three accesses or more.
abbrev pub promotable : ShortTermStore → String → List MemoryEntry
promotable s a =
    keep (λ e. leb 3 e.access_count) (elim (Dict.lookup a s.entries) [ none ↦ [] | some es ↦ es ])

get_promotable_lem :
    (s : ShortTermStore) (a : String) → get_promotable s a promotion_threshold ≡ promotable s a
unfolding get_promotable
get_promotable_lem s a = elim (Option-cases (Dict.lookup a s.entries)) [
  | inl g ↦ rw (get_promotable, g) refl
  | inr (es, g) ↦ rw (get_promotable, g) refl
]

promote_all_lem :
    {L : Type 0} (t : LongTerm L) (l : L) (es : List MemoryEntry) (n : ℕ)
    → Writable t
    → promote_all t l es n ≡ (stored t l es, ok (n + length es))
unfolding promote_all
promote_all_lem t l [] n w = ap (λ k. (l, ok k)) (omega arith)
promote_all_lem t l (e ∷ es) n w =
    rw (promote_all, w l e)
      (promote_all_lem t (t.long_put l e).0 es (n + 1) w
        ∙ ap (λ k. (stored t (t.long_put l e).0 es, ok k)) (omega arith))

-- What a promotion gives with such a tier: the number of entries over the threshold, counted for the agent.
promote_lem :
    {L : Type 0} (t : LongTerm L) (m : MemoryStore L) (a : String) (now : ℕ)
    → Writable t
    → ((promote t m a now).1 ≡ ok (length (promotable m.short a)))
      × ((promote t m a now).0.short ≡ m.short)
      × ((promote t m a now).0.long ≡ stored t m.long (promotable m.short a))
      × ((promote t m a now).0.registry ≡ (
          if ltb 0 (length (promotable m.short a))
          then ensure_with m.registry a now (count_promotions (length (promotable m.short a)))
          else m.registry))
unfolding promote
promote_lem t m a now w =
    let es = promotable m.short a in
    let all : promote_all t m.long (get_promotable m.short a promotion_threshold) 0
        ≡ (stored t m.long es, ok (length es)) =
      ap (λ xs. promote_all t m.long xs 0) (get_promotable_lem m.short a)
      ∙ promote_all_lem t m.long es 0 w
      ∙ ap (λ k. (stored t m.long es, ok k)) (omega arith) in
    rw (promote, all) (refl, refl, ap (λ r. r.0) all, refl)

-- The agent of an entry to promote has a namespace, if the registry knows it.
known-ensure_with :
    (r : NamespaceRegistry) (a : String) (now : ℕ) (f : Namespace → Namespace) (ns : Namespace)
    → Namespace.get r a ≡ some ns
    → Namespace.get (ensure_with r a now f) a ≡ some (f ns)
unfolding ensure_with ensure Namespace.get
known-ensure_with r a now f ns g =
    rw (ensure_with, ensure, g) (lookup-adjust a a f r.namespaces ∙ rw (eq_refl a, g) refl)

-- The record of an agent after two promotions of n entries.
abbrev pub counted_twice : ℕ → Namespace → Namespace
counted_twice n ns = record ns {
  promotions = u64 (u64 (ns.promotions + n) + n);
  long_term_entries = u64 (u64 (ns.long_term_entries + n) + n);
}

-- While the long-term writes succeed, two calls of `promote` for an agent with entries of three accesses or
-- more, without a call between, store these entries in the long-term tier twice, one after the other and in
-- the same order, give their number both times, and add it twice to the agent's promotions and
-- long-term entries, since an entry stays in the short-term tier.
pub promote-promote :
    {L : Type 0} (t : LongTerm L) (m : MemoryStore L) (a : String) (ns : Namespace) (now later : ℕ)
    → Writable t
    → Namespace.get m.registry a ≡ some ns
    → 0 < length (promotable m.short a)
    → ((promote t m a now).1 ≡ ok (length (promotable m.short a)))
      × ((promote t (promote t m a now).0 a later).1 ≡ ok (length (promotable m.short a)))
      × ((promote t (promote t m a now).0 a later).0.long
          ≡ stored t (stored t m.long (promotable m.short a)) (promotable m.short a))
      × ((promote t (promote t m a now).0 a later).0.short ≡ m.short)
      × (Namespace.get (promote t (promote t m a now).0 a later).0.registry a
          ≡ some (counted_twice (length (promotable m.short a)) ns))
unfolding count_promotions
promote-promote t m a ns now later w g pos =
    let n = length (promotable m.short a) in
    let (r1, s1, l1, g1) = promote_lem t m a now w in
    let (r2, s2, l2, g2) = promote_lem t (promote t m a now).0 a later w in
    let again : promotable (promote t m a now).0.short a ≡ promotable m.short a =
      ap (λ s. promotable s a) s1 in
    let over : ltb 0 n ≡ true = ground arith in
    let first : Namespace.get (promote t m a now).0.registry a ≡ some (count_promotions n ns) =
      ap (λ r. Namespace.get r a) g1
      ∙ rw over (known-ensure_with m.registry a now (count_promotions n) ns g) in
    (
      r1,
      r2 ∙ ap (λ es. ok (length es)) again,
      l2 ∙ rw (again, l1) refl,
      s2 ∙ s1,
      ap (λ r. Namespace.get r a) g2
          ∙ rw (again, over)
              (known-ensure_with (promote t m a now).0.registry a later (count_promotions n)
                (count_promotions n ns) first),
    )
