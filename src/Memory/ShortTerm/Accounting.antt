-- ===== src/Memory/ShortTerm/Accounting.antt =====
-- The store's total against what it holds, and its bounds, over any calls.
use ughi.Prelude.{
  String, ℕ, ◌+◌, ◌-◌, ◌≤◌, ◌<◌, ◌≡◌, refl, ◌∙◌, ◌⊎◌, inl, inr, List, [], ◌∷◌, arith, Bool-cases,
  Option-cases, leb, ltb, length, All, max, ◌/◌, u64,
}
use ughi.Prelude.Dict
use ughi.Prelude.Dict.{
  Dict, IsMap, IsMap-adjust, IsMap-insert, values, total-adjust, total-insert, le-total, All-adjust,
  All-insert, All-lookup,
}
use ughi.Memory.Types.{MemoryEntry, estimated_bytes}
use ughi.Memory.ShortTerm.{
  ShortTermStore, system_budget_bytes, agent_budget_bytes, bytes, lru, swap_remove, candidates,
  sort_candidates, evict_from, evict_loop, sort_by_access, remove_first, evict_system_lru,
  evict_agent_lru, ensure_agent, agent_bytes, within_system, within_agent, upsert, store_in,
}
use ughi.Memory.ShortTerm.Bytes.{
  bytes-sort_by_access, bytes-remove_first, upsert_lem, length-swap_remove-le,
}
use ughi.Memory.ShortTerm.Eviction.{Store, stored_bytes, Covered-sorted, evict_loop_lem}

-- No namespace has more than the allowed number of entries.
abbrev pub Capped : ℕ → Store → Type 0
Capped limit d = All (λ es. length es ≤ limit) (values d)

-- The total is the sum of the sizes of what is stored.
pub record IsAccounted (s : ShortTermStore) : Type 0 where
  pub distinct : IsMap s.entries
  pub accounted : s.total_bytes ≡ stored_bytes s.entries
  pub capped : Capped s.max_entries_per_agent s.entries
  pub limited : 0 < s.max_entries_per_agent

Capped-evict_from :
    (limit : ℕ) (a : String) (d : Store) (freed : ℕ)
    → Capped limit d
    → Capped limit (evict_from a d freed).0
unfolding evict_from
Capped-evict_from limit a d freed c = elim (Option-cases (Dict.lookup a d)) [
  | inl g ↦ rw (evict_from, g) c
  | inr (es, g) ↦ elim (Option-cases (lru es)) [
    | inl l ↦ rw (evict_from, g, l) c
    | inr (n, l) ↦
        rw (evict_from, g, l)
          (All-adjust (λ (fs : List MemoryEntry). length fs ≤ limit) a (swap_remove n.0) d
            (λ v h. omega (arith, length-swap_remove-le n.0 v, h)) c)
  ]
]

Capped-evict_loop :
    (limit target : ℕ) (cs : List (String × ℕ)) (d : Store) (freed : ℕ)
    → Capped limit d
    → Capped limit (evict_loop target cs d freed).0
unfolding evict_loop
Capped-evict_loop limit target [] d freed c = c
Capped-evict_loop limit target (x ∷ cs) d freed c = elim (Bool-cases (leb target freed)) [
  | inl l ↦ rw (evict_loop, l) c
  | inr l ↦
      rw (evict_loop, l)
        (Capped-evict_loop limit target cs _ (evict_from x.0 d freed).1
          (Capped-evict_from limit x.0 d freed c))
]

evict_system_lru_lem :
    (s : ShortTermStore) (target : ℕ)
    → IsAccounted s
    → IsAccounted (evict_system_lru s target)
      × (((evict_system_lru s target).total_bytes + target ≤ s.total_bytes)
          ⊎ ((evict_system_lru s target).total_bytes ≡ 0))
unfolding evict_system_lru
evict_system_lru_lem s target h =
    let cs = sort_candidates (candidates s.entries) in
    let loop = evict_loop_lem target cs s.entries 0 h.distinct (Covered-sorted s.entries) in
    let freed = (evict_loop target cs s.entries 0).1 in
    let left : s.total_bytes - freed ≡ stored_bytes (evict_loop target cs s.entries 0).0 =
      omega (arith, h.accounted, loop.1) in
    (
      record {
        distinct = loop.0;
        accounted = left;
        capped = Capped-evict_loop s.max_entries_per_agent target cs s.entries 0 h.capped;
        limited = h.limited;
      },
      elim loop.2 [
        | inl reached ↦ inl (omega (arith, h.accounted, loop.1, reached))
        | inr empty ↦ inr (left ∙ empty)
      ],
    )

pub within_system_lem :
    (s : ShortTermStore) (e : MemoryEntry)
    → IsAccounted s
    → s.total_bytes ≤ system_budget_bytes
    → estimated_bytes e ≤ system_budget_bytes
    → IsAccounted (within_system s e)
      × ((within_system s e).total_bytes + estimated_bytes e ≤ system_budget_bytes)
unfolding within_system
within_system_lem s e h w b =
    let evicted = evict_system_lru_lem s (estimated_bytes e) h in
    elim (Bool-cases (ltb system_budget_bytes (u64 (s.total_bytes + estimated_bytes e)))) [
      | inl l ↦ rw (within_system, l) (evicted.0, ground (arith, evicted.1, w, b))
      | inr l ↦ rw (within_system, l) (h, ground (arith, l))
    ]

pub ensure_agent_lem :
    (s : ShortTermStore) (a : String)
    → IsAccounted s
    → IsAccounted (ensure_agent s a) × ((ensure_agent s a).total_bytes ≡ s.total_bytes)
unfolding ensure_agent bytes
ensure_agent_lem s a h = elim (Option-cases (Dict.lookup a s.entries)) [
  | inr (es, g) ↦ rw (ensure_agent, g) (h, refl)
  | inl g ↦
      rw (ensure_agent, g)
        (
          record {
            distinct = IsMap-insert a [] s.entries h.distinct;
            accounted = omega (arith, h.accounted, total-insert bytes a [] s.entries g);
            capped =
                All-insert (λ (es : List MemoryEntry). length es ≤ s.max_entries_per_agent) a []
                  s.entries (omega arith) h.capped;
            limited = h.limited;
          },
          refl,
        )
]

evict_agent_lru_lem :
    (s : ShortTermStore) (a : String)
    → IsAccounted s
    → IsAccounted (evict_agent_lru s a) × ((evict_agent_lru s a).total_bytes ≤ s.total_bytes)
unfolding evict_agent_lru
evict_agent_lru_lem s a h = elim (Option-cases (Dict.lookup a s.entries)) [
  | inl g ↦ rw (evict_agent_lru, g) (h, omega arith)
  | inr (es, g) ↦
      let n = max (length es / 4) 1 in
      let gone = bytes-remove_first n 0 (sort_by_access es) in
      let kept = (remove_first n 0 (sort_by_access es)).1 in
      let sorted = bytes-sort_by_access es in
      let short =
        All-lookup (λ (fs : List MemoryEntry). length fs ≤ s.max_entries_per_agent) a es s.entries
          h.capped g in
      rw (evict_agent_lru, g)
        (
          record {
            distinct = IsMap-adjust a (λ _. kept) s.entries h.distinct;
            accounted = omega (
              arith,
              h.accounted,
              gone.0,
              sorted.0,
              total-adjust bytes a es (λ _. kept) s.entries g,
            );
            capped =
                All-adjust (λ (fs : List MemoryEntry). length fs ≤ s.max_entries_per_agent) a
                  (λ _. kept) s.entries (λ v c. omega (arith, gone.1, sorted.1, short)) h.capped;
            limited = h.limited;
          },
          omega arith,
        )
]

pub within_agent_lem :
    (s : ShortTermStore) (e : MemoryEntry)
    → IsAccounted s
    → IsAccounted (within_agent s e) × ((within_agent s e).total_bytes ≤ s.total_bytes)
unfolding within_agent
within_agent_lem s e h =
    elim (Bool-cases
      (ltb agent_budget_bytes (u64 (agent_bytes s e.agent_id + estimated_bytes e)))) [
        | inl l ↦ rw (within_agent, l) (evict_agent_lru_lem s e.agent_id h)
        | inr l ↦ rw (within_agent, l) (h, omega arith)
      ]

pub store_in_lem :
    (s : ShortTermStore) (e : MemoryEntry)
    → IsAccounted s
    → s.total_bytes + estimated_bytes e ≤ system_budget_bytes
    → IsAccounted (store_in s e) × ((store_in s e).total_bytes ≤ system_budget_bytes)
unfolding store_in
store_in_lem s e h w = elim (Option-cases (Dict.lookup e.agent_id s.entries)) [
  | inl g ↦ rw (store_in, g) (h, omega arith)
  | inr (es, g) ↦
      let part = le-total bytes e.agent_id es s.entries g in
      let up =
        upsert_lem s.max_entries_per_agent s.total_bytes e es (omega (arith, h.accounted, part))
          (omega arith) in
      let kept = (upsert s.max_entries_per_agent s.total_bytes e es).1 in
      let short =
        All-lookup (λ (fs : List MemoryEntry). length fs ≤ s.max_entries_per_agent) e.agent_id es
          s.entries h.capped g in
      rw (store_in, g)
        (
          record {
            distinct = IsMap-adjust e.agent_id (λ _. kept) s.entries h.distinct;
            accounted = omega (
              arith,
              h.accounted,
              part,
              up.0,
              total-adjust bytes e.agent_id es (λ _. kept) s.entries g,
            );
            capped =
                All-adjust (λ (fs : List MemoryEntry). length fs ≤ s.max_entries_per_agent)
                  e.agent_id (λ _. kept) s.entries (λ v c. up.2 short h.limited) h.capped;
            limited = h.limited;
          },
          omega (arith, up.1, w),
        )
]
