-- ===== src/Memory/ShortTerm/Reads.antt =====
-- What a read gives after a `put`.
use ughi.Prelude.{
  String, ℕ, zero, suc, ◌+◌, ◌≤◌, ◌≡◌, refl, ap, ◌∙◌, inl, inr, str_eq, eq_refl, Bool, true, false,
  none, some, List, [], ◌∷◌, ◌++◌, arith, Bool-cases, Option-cases, ok, leb, ltb, u64, find, length,
  ◌/◌, max,
}
use ughi.Prelude.Dict
use ughi.Prelude.Dict.{Dict, lookup-insert, lookup-adjust}
use ughi.Memory.Types.{MemoryEntry, estimated_bytes, touch}
use ughi.Memory.ShortTerm.Runs.{estimated-as_short_term}
use ughi.Memory.ShortTerm.{
  ShortTermStore, system_budget_bytes, agent_budget_bytes, lru, swap_remove, last, init,
  sort_by_access, remove_first, evict_agent_lru, ensure_agent, within_system, agent_bytes,
  within_agent, as_short_term, replace, make_room, upsert, store_in, put, has_key, get,
}

find-replace :
    (entry found : MemoryEntry) (es : List MemoryEntry)
    → find (has_key entry.key) es ≡ some found
    → find (has_key entry.key) (replace entry es) ≡ some entry
unfolding replace has_key
find-replace entry found [] h = absurd (ground arith)
find-replace entry found (e ∷ es) h = ground (arith, find-replace entry found es, eq_refl entry.key)

module _ (p : MemoryEntry → Bool) where
  find-init :
      (x : MemoryEntry) (xs : List MemoryEntry)
      → find p (x ∷ xs) ≡ none
      → (p (last x xs) ≡ false) × (find p (init x xs) ≡ none)
  find-init x [] h = ground arith
  find-init x (y ∷ ys) h = ground (arith, find-init y ys)

  -- What is not found is not found among fewer.
  find-swap_remove :
      (i : ℕ) (es : List MemoryEntry) → find p es ≡ none → find p (swap_remove i es) ≡ none
  unfolding swap_remove
  find-swap_remove zero [] h = h
  find-swap_remove (suc i) [] h = h
  find-swap_remove zero (x ∷ []) h = refl
  find-swap_remove zero (x ∷ y ∷ ys) h = ground (arith, find-init y ys)
  find-swap_remove (suc i) (x ∷ xs) h = ground (arith, find-swap_remove i xs)

  find_pushed :
      (e : MemoryEntry) (es : List MemoryEntry)
      → find p es ≡ none
      → p e ≡ true
      → find p (es ++ (e ∷ [])) ≡ some e
  find_pushed e [] h t = ground arith
  find_pushed e (x ∷ xs) h t = ground (arith, find_pushed e xs)

  find-make_room :
      (limit total : ℕ) (es : List MemoryEntry)
      → find p es ≡ none
      → find p (make_room limit total es).1 ≡ none
  unfolding make_room
  find-make_room limit total es h = elim (Bool-cases (leb limit (length es))) [
    | inr l ↦ rw (make_room, l) h
    | inl l ↦ elim (Option-cases (lru es)) [
      | inl g ↦ rw (make_room, l, g) h
      | inr (m, g) ↦ rw (make_room, l, g) (find-swap_remove m.0 es h)
    ]
  ]

has_own_key : (e : MemoryEntry) → has_key e.key e ≡ true
unfolding has_key
has_own_key e = eq_refl e.key

-- An upserted entry is the one found under its key.
find-upsert :
    (limit total : ℕ) (entry : MemoryEntry) (es : List MemoryEntry)
    → find (has_key entry.key) (upsert limit total entry es).1 ≡ some entry
unfolding upsert
find-upsert limit total entry es = elim (Option-cases (find (has_key entry.key) es)) [
  | inr (e, g) ↦ rw (upsert, g) (find-replace entry e es g)
  | inl g ↦
      rw (upsert, g)
        (find_pushed (has_key entry.key) entry (make_room limit total es).1
          (find-make_room (has_key entry.key) limit total es g) (has_own_key entry))
]

ensured :
    (s : ShortTermStore) (a : String)
    → (es : List MemoryEntry) × (Dict.lookup a (ensure_agent s a).entries ≡ some es)
unfolding ensure_agent
ensured s a = elim (Option-cases (Dict.lookup a s.entries)) [
  | inr (es, g) ↦ (es, rw (ensure_agent, g) g)
  | inl g ↦ ([], rw (ensure_agent, g) (lookup-insert a a [] s.entries ∙ rw (eq_refl a) refl))
]

stays :
    (s : ShortTermStore) (e : MemoryEntry) (es : List MemoryEntry)
    → Dict.lookup e.agent_id s.entries ≡ some es
    → (fs : List MemoryEntry) × (Dict.lookup e.agent_id (within_agent s e).entries ≡ some fs)
unfolding within_agent evict_agent_lru
stays s e es g =
    elim (Bool-cases
      (ltb agent_budget_bytes (u64 (agent_bytes s e.agent_id + estimated_bytes e)))) [
        | inr l ↦ (es, rw (within_agent, l) g)
        | inl l ↦
            let kept = (remove_first (max (length es / 4) 1) 0 (sort_by_access es)).1 in
            (
              kept,
              rw (within_agent, l, evict_agent_lru, g)
                  (lookup-adjust e.agent_id e.agent_id (λ _. kept) s.entries
                    ∙ rw (eq_refl e.agent_id, g) refl),
            )
      ]

get-store_in :
    (s : ShortTermStore) (e : MemoryEntry) (es : List MemoryEntry) (now : ℕ)
    → Dict.lookup e.agent_id s.entries ≡ some es
    → (get (store_in s e) e.agent_id e.key now).1 ≡ ok (touch now e)
unfolding get store_in
get-store_in s e es now g =
    let kept = (upsert s.max_entries_per_agent s.total_bytes e es).1 in
    let found : Dict.lookup e.agent_id (Dict.adjust e.agent_id (λ _. kept) s.entries) ≡ some kept =
      lookup-adjust e.agent_id e.agent_id (λ _. kept) s.entries ∙ rw (eq_refl e.agent_id, g) refl in
    rw (store_in, g, get, found, find-upsert s.max_entries_per_agent s.total_bytes e es) refl

-- A `get` right after a `put`, of the agent and the key of the entry, gives the entry, in the short-term tier
-- and touched, whatever the two budgets and the limit made the store evict.
pub get-put :
    (s : ShortTermStore) (e : MemoryEntry) (now : ℕ)
    → (get (put s e) e.agent_id e.key now).1 ≡ ok (touch now (as_short_term e))
unfolding put as_short_term
get-put s e now =
    let entry = as_short_term e in
    let ready = ensure_agent (within_system s entry) entry.agent_id in
    let there = ensured (within_system s entry) entry.agent_id in
    let kept = stays ready entry there.0 there.1 in
    get-store_in (within_agent ready entry) entry kept.0 now kept.1

-- Only the agent's own namespace changes after the eviction.
lookup-ensure_agent :
    (s : ShortTermStore) (a other : String)
    → str_eq a other ≡ false
    → Dict.lookup other (ensure_agent s a).entries ≡ Dict.lookup other s.entries
unfolding ensure_agent
lookup-ensure_agent s a other n = elim (Option-cases (Dict.lookup a s.entries)) [
  | inr (es, g) ↦ rw (ensure_agent, g) refl
  | inl g ↦ rw (ensure_agent, g) (lookup-insert a other [] s.entries ∙ rw n refl)
]

lookup-adjust_other :
    (a other : String) (f : List MemoryEntry → List MemoryEntry) (d : Dict (List MemoryEntry))
    → str_eq a other ≡ false
    → Dict.lookup other (Dict.adjust a f d) ≡ Dict.lookup other d
lookup-adjust_other a other f d n = lookup-adjust a other f d ∙ rw n refl

lookup-within_agent :
    (s : ShortTermStore) (e : MemoryEntry) (other : String)
    → str_eq e.agent_id other ≡ false
    → Dict.lookup other (within_agent s e).entries ≡ Dict.lookup other s.entries
unfolding within_agent evict_agent_lru
lookup-within_agent s e other n =
    elim (Bool-cases
      (ltb agent_budget_bytes (u64 (agent_bytes s e.agent_id + estimated_bytes e)))) [
        | inr l ↦ rw (within_agent, l) refl
        | inl l ↦ elim (Option-cases (Dict.lookup e.agent_id s.entries)) [
          | inl g ↦ rw (within_agent, l, evict_agent_lru, g) refl
          | inr (es, g) ↦
              rw (within_agent, l, evict_agent_lru, g)
                (lookup-adjust_other e.agent_id other _ s.entries n)
        ]
      ]

lookup-store_in :
    (s : ShortTermStore) (e : MemoryEntry) (other : String)
    → str_eq e.agent_id other ≡ false
    → Dict.lookup other (store_in s e).entries ≡ Dict.lookup other s.entries
unfolding store_in
lookup-store_in s e other n = elim (Option-cases (Dict.lookup e.agent_id s.entries)) [
  | inl g ↦ rw (store_in, g) refl
  | inr (es, g) ↦ rw (store_in, g) (lookup-adjust_other e.agent_id other _ s.entries n)
]

fits-within_system :
    (s : ShortTermStore) (e : MemoryEntry)
    → s.total_bytes + estimated_bytes e ≤ system_budget_bytes
    → within_system s e ≡ s
unfolding within_system
fits-within_system s e fits = ground arith

agent-as_short_term : (e : MemoryEntry) → (as_short_term e).agent_id ≡ e.agent_id
unfolding as_short_term
agent-as_short_term e = refl

-- While the entry fits into the system budget, a `put` leaves the namespaces of all other agents as
-- they are.
pub put_isolates :
    (s : ShortTermStore) (e : MemoryEntry) (other : String)
    → s.total_bytes + estimated_bytes e ≤ system_budget_bytes
    → str_eq e.agent_id other ≡ false
    → Dict.lookup other (put s e).entries ≡ Dict.lookup other s.entries
unfolding put
put_isolates s e other fits n =
    let entry = as_short_term e in
    let apart : str_eq entry.agent_id other ≡ false =
      ap (λ a. str_eq a other) (agent-as_short_term e) ∙ n in
    let ready = ensure_agent (within_system s entry) entry.agent_id in
    lookup-store_in (within_agent ready entry) entry other apart
    ∙ lookup-within_agent ready entry other apart
    ∙ lookup-ensure_agent (within_system s entry) entry.agent_id other apart
    ∙ ap (λ (t : ShortTermStore). Dict.lookup other t.entries)
        (fits-within_system s entry (omega (arith, estimated-as_short_term e)))
