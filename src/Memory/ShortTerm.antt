-- ===== src/Memory/ShortTerm.antt =====
-- The store `ShortTermStore` of crates/ughi-memory/src/short_term.rs. The namespaces come in the order
-- of the dictionary. `search`, on floats, is left out.
use ughi.Prelude.{
  ℕ, zero, suc, ◌+◌, ◌-◌, ◌/◌, max, String, str_eq, Bool, Option, none, some, List, [], ◌∷◌, ◌++◌,
  ltb, leb, if◌then◌else◌, Result, ok, err, u64, sub_u64, length, keep, find,
}
use ughi.Prelude.Dict
use ughi.Prelude.Dict.{Dict}
use ughi.Memory.Types.{MemoryEntry, MemoryError, short_term, key_not_found, estimated_bytes, touch}
pub mod Bytes
pub mod Eviction
pub mod Accounting
pub mod Runs
pub mod Reads

abbrev pub system_budget_bytes : ℕ
system_budget_bytes = 125829120

abbrev pub agent_budget_bytes : ℕ
agent_budget_bytes = 6291456

pub record ShortTermStore : Type 0 where
  pub entries : Dict (List MemoryEntry)
  pub total_bytes : ℕ
  pub max_entries_per_agent : ℕ

unfoldable pub new : ShortTermStore
new = record { entries = []; total_bytes = 0; max_entries_per_agent = 500 }

-- `iter().map(|e| e.estimated_bytes()).sum()`
unfoldable pub bytes : List MemoryEntry → ℕ
bytes [] = 0
bytes (e ∷ es) = estimated_bytes e + bytes es

-- `min_by_key` of the last access, with its index: the first of the least.
unfoldable pub lru : List MemoryEntry → Option (ℕ × MemoryEntry)
lru [] = none
lru (e ∷ es) = elim (lru es) [
  | none ↦ some (0, e)
  | some m ↦ if leb e.last_accessed m.1.last_accessed then some (0, e) else some (suc m.0, m.1)
]

-- The last item and the ones before it, of a list that starts with x.
abbrev pub last : MemoryEntry → List MemoryEntry → MemoryEntry
last x [] = x
last x (y ∷ ys) = last y ys

abbrev pub init : MemoryEntry → List MemoryEntry → List MemoryEntry
init x [] = []
init x (y ∷ ys) = x ∷ init y ys

-- `swap_remove`: the last item takes the place of the removed one.
unfoldable pub swap_remove : ℕ → List MemoryEntry → List MemoryEntry
swap_remove i [] = []
swap_remove zero (x ∷ []) = []
swap_remove zero (x ∷ y ∷ ys) = last y ys ∷ init y ys
swap_remove (suc i) (x ∷ xs) = x ∷ swap_remove i xs

-- `sort_by_key` of the last access, which is stable.
unfoldable pub insert_by_access : MemoryEntry → List MemoryEntry → List MemoryEntry
insert_by_access e [] = e ∷ []
insert_by_access e (x ∷ xs) =
    let rest = insert_by_access e xs in
    if leb e.last_accessed x.last_accessed then e ∷ x ∷ xs else x ∷ rest

unfoldable pub sort_by_access : List MemoryEntry → List MemoryEntry
sort_by_access [] = []
sort_by_access (e ∷ es) = insert_by_access e (sort_by_access es)

-- The first n entries go: what they free, and what stays.
unfoldable pub remove_first : ℕ → ℕ → List MemoryEntry → ℕ × List MemoryEntry
remove_first zero freed es = (freed, es)
remove_first (suc n) freed [] = (freed, [])
remove_first (suc n) freed (e ∷ es) = remove_first n (freed + estimated_bytes e) es

unfoldable pub evict_agent_lru : ShortTermStore → String → ShortTermStore
evict_agent_lru s agent_id = elim (Dict.lookup agent_id s.entries) [
  | none ↦ s
  | some es ↦
      let kept = remove_first (max (length es / 4) 1) 0 (sort_by_access es) in
      record s {
        entries = Dict.adjust agent_id (λ _. kept.1) s.entries;
        total_bytes = s.total_bytes - kept.0;
      }
]

-- The candidates of an eviction: the agent and the last access of each entry.
unfoldable pub candidates_of : String → List MemoryEntry → List (String × ℕ)
candidates_of agent_id [] = []
candidates_of agent_id (e ∷ es) = (agent_id, e.last_accessed) ∷ candidates_of agent_id es

unfoldable pub candidates : Dict (List MemoryEntry) → List (String × ℕ)
candidates [] = []
candidates ((agent_id, es) ∷ d) = candidates_of agent_id es ++ candidates d

unfoldable pub insert_candidate : String × ℕ → List (String × ℕ) → List (String × ℕ)
insert_candidate c [] = c ∷ []
insert_candidate c (x ∷ xs) =
    let rest = insert_candidate c xs in if leb c.1 x.1 then c ∷ x ∷ xs else x ∷ rest

unfoldable pub sort_candidates : List (String × ℕ) → List (String × ℕ)
sort_candidates [] = []
sort_candidates (c ∷ cs) = insert_candidate c (sort_candidates cs)

-- One turn of the eviction: the agent of the candidate loses its least recently used entry.
unfoldable pub evict_from : String → Dict (List MemoryEntry) → ℕ → Dict (List MemoryEntry) × ℕ
evict_from agent_id d freed = elim (Dict.lookup agent_id d) [
  | none ↦ (d, freed)
  | some es ↦ elim (lru es) [
    | none ↦ (d, freed)
    | some m ↦ (Dict.adjust agent_id (swap_remove m.0) d, freed + estimated_bytes m.1)
  ]
]

unfoldable pub evict_loop :
    ℕ → List (String × ℕ) → Dict (List MemoryEntry) → ℕ → Dict (List MemoryEntry) × ℕ
evict_loop target [] d freed = (d, freed)
evict_loop target (c ∷ cs) d freed =
    let next = evict_from c.0 d freed in
    let rest = evict_loop target cs next.0 next.1 in if leb target freed then (d, freed) else rest

unfoldable pub evict_system_lru : ShortTermStore → ℕ → ShortTermStore
evict_system_lru s target =
    let evicted = evict_loop target (sort_candidates (candidates s.entries)) s.entries 0 in
    record s { entries = evicted.0; total_bytes = s.total_bytes - evicted.1 }

-- `entry(agent_id).or_insert_with(..)`
unfoldable pub ensure_agent : ShortTermStore → String → ShortTermStore
ensure_agent s agent_id = elim (Dict.lookup agent_id s.entries) [
  | some es ↦ s
  | none ↦ record s { entries = Dict.insert agent_id [] s.entries }
]

unfoldable pub has_key : String → MemoryEntry → Bool
has_key key e = str_eq e.key key

-- The first entry with the key becomes this one.
unfoldable pub replace : MemoryEntry → List MemoryEntry → List MemoryEntry
replace entry [] = []
replace entry (e ∷ es) =
    let rest = replace entry es in if has_key entry.key e then entry ∷ es else e ∷ rest

-- With as many entries as allowed, the least recently used one goes.
unfoldable pub make_room : ℕ → ℕ → List MemoryEntry → ℕ × List MemoryEntry
make_room limit total es =
    if leb limit (length es)
    then elim (lru es) [
      | none ↦ (total, es)
      | some m ↦ (sub_u64 total (estimated_bytes m.1), swap_remove m.0 es)
    ]
    else (total, es)

-- The new total and the new entries of the agent.
unfoldable pub upsert : ℕ → ℕ → MemoryEntry → List MemoryEntry → ℕ × List MemoryEntry
upsert limit total entry es = elim (find (has_key entry.key) es) [
  | some existing ↦
      (u64 (sub_u64 total (estimated_bytes existing) + estimated_bytes entry), replace entry es)
  | none ↦
      let room = make_room limit total es in
      (u64 (room.0 + estimated_bytes entry), room.1 ++ (entry ∷ []))
]

-- The namespace stands since `ensure_agent`, so that the first case is never taken.
unfoldable pub store_in : ShortTermStore → MemoryEntry → ShortTermStore
store_in s entry = elim (Dict.lookup entry.agent_id s.entries) [
  | none ↦ s
  | some es ↦
      let result = upsert s.max_entries_per_agent s.total_bytes entry es in
      record s {
        entries = Dict.adjust entry.agent_id (λ _. result.1) s.entries;
        total_bytes = result.0;
      }
]

unfoldable pub as_short_term : MemoryEntry → MemoryEntry
as_short_term e = record e { tier = short_term }

-- The two budget checks of `put`.
unfoldable pub within_system : ShortTermStore → MemoryEntry → ShortTermStore
within_system s entry =
    if ltb system_budget_bytes (u64 (s.total_bytes + estimated_bytes entry))
    then evict_system_lru s (estimated_bytes entry)
    else s

unfoldable pub agent_bytes : ShortTermStore → String → ℕ
agent_bytes s agent_id = elim (Dict.lookup agent_id s.entries) [ none ↦ 0 | some es ↦ bytes es ]

unfoldable pub within_agent : ShortTermStore → MemoryEntry → ShortTermStore
within_agent s entry =
    if ltb agent_budget_bytes (u64 (agent_bytes s entry.agent_id + estimated_bytes entry))
    then evict_agent_lru s entry.agent_id
    else s

-- It never fails.
unfoldable pub put : ShortTermStore → MemoryEntry → ShortTermStore
put s e =
    let entry = as_short_term e in
    store_in (within_agent (ensure_agent (within_system s entry) entry.agent_id) entry) entry

-- A write through `iter_mut().find`.
unfoldable pub touch_key : String → ℕ → List MemoryEntry → List MemoryEntry
touch_key key now [] = []
touch_key key now (e ∷ es) =
    let rest = touch_key key now es in if has_key key e then touch now e ∷ es else e ∷ rest

unfoldable pub get :
    ShortTermStore → String → String → ℕ → ShortTermStore × Result MemoryError MemoryEntry
get s agent_id key now = elim (Dict.lookup agent_id s.entries) [
  | none ↦ (s, err (key_not_found key))
  | some es ↦ elim (find (has_key key) es) [
    | none ↦ (s, err (key_not_found key))
    | some e ↦ (
      record s { entries = Dict.adjust agent_id (touch_key key now) s.entries },
      ok (touch now e),
    )
  ]
]

unfoldable pub delete_namespace : ShortTermStore → String → ShortTermStore
delete_namespace s agent_id = elim (Dict.lookup agent_id s.entries) [
  | none ↦ s
  | some es ↦ record s {
    entries = Dict.remove agent_id s.entries;
    total_bytes = sub_u64 s.total_bytes (bytes es);
  }
]

unfoldable pub get_promotable : ShortTermStore → String → ℕ → List MemoryEntry
get_promotable s agent_id min_access_count = elim (Dict.lookup agent_id s.entries) [
  | none ↦ []
  | some es ↦ keep (λ e. leb min_access_count e.access_count) es
]

unfoldable pub total_entries : ShortTermStore → ℕ
total_entries s = Dict.total length s.entries

unfoldable pub agent_count : ShortTermStore → ℕ
agent_count s = length s.entries
