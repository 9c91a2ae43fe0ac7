-- ===== src/Memory/ShortTerm/Bytes.antt =====
-- What the operations on one namespace do to its bytes and to its number of entries.
use ughi.Prelude.{
  String, ℕ, zero, suc, ◌+◌, ◌≤◌, ◌<◌, ◌≡◌, refl, subst, none, some, List, [], ◌∷◌, ◌++◌, arith,
  inl, inr, Bool-cases, Option-cases, leb, length, find, length-append,
}
use mathlib.Core.Option
use ughi.Memory.Types.{MemoryEntry, estimated_bytes, touch}
use ughi.Memory.ShortTerm.{
  bytes, lru, last, init, swap_remove, insert_by_access, sort_by_access, remove_first, has_key,
  replace, make_room, upsert, touch_key,
}

pub bytes-append : (xs ys : List MemoryEntry) → bytes (xs ++ ys) ≡ bytes xs + bytes ys
unfolding bytes
bytes-append [] ys = omega arith
bytes-append (x ∷ xs) ys = omega (arith, bytes-append xs ys)

bytes-init :
    (x : MemoryEntry) (xs : List MemoryEntry)
    → bytes (init x xs) + estimated_bytes (last x xs) ≡ bytes (x ∷ xs)
unfolding bytes
bytes-init x [] = omega arith
bytes-init x (y ∷ ys) = omega (arith, bytes-init y ys)

length-init : (x : MemoryEntry) (xs : List MemoryEntry) → length (init x xs) ≡ length xs
length-init x [] = refl
length-init x (y ∷ ys) = omega (arith, length-init y ys)

pub length-swap_remove-le : (i : ℕ) (es : List MemoryEntry) → length (swap_remove i es) ≤ length es
unfolding swap_remove
length-swap_remove-le zero [] = omega arith
length-swap_remove-le (suc i) [] = omega arith
length-swap_remove-le zero (x ∷ []) = omega arith
length-swap_remove-le zero (x ∷ y ∷ ys) = omega (arith, length-init y ys)
length-swap_remove-le (suc i) (x ∷ xs) = omega (arith, length-swap_remove-le i xs)

-- There is a least recently used entry but in an empty list.
pub lru-none : (es : List MemoryEntry) → lru es ≡ none → es ≡ []
unfolding lru
lru-none [] h = refl
lru-none (e ∷ es) h = absurd (ground arith)

-- What a `swap_remove` of a found entry takes off.
abbrev RemovedFrom : List MemoryEntry → ℕ × MemoryEntry → Type 0
RemovedFrom es m =
    (bytes (swap_remove m.0 es) + estimated_bytes m.1 ≡ bytes es)
    × (suc (length (swap_remove m.0 es)) ≡ length es)

-- The found entry is the one that goes.
pub bytes-swap_remove :
    (es : List MemoryEntry) (m : ℕ × MemoryEntry) → lru es ≡ some m → RemovedFrom es m
unfolding lru swap_remove bytes
bytes-swap_remove [] m h = absurd (ground arith)
bytes-swap_remove (e ∷ []) m h = ground arith
bytes-swap_remove (e ∷ f ∷ es) m h = elim (Option-cases (lru (f ∷ es))) [
  | inl g ↦ absurd (ground (arith, lru-none (f ∷ es) g))
  | inr (n, g) ↦
      let tail = bytes-swap_remove (f ∷ es) n g in
      elim (Bool-cases (leb e.last_accessed n.1.last_accessed)) [
        | inl l ↦
            subst (RemovedFrom (e ∷ f ∷ es)) (Option.some-injective (0, e) m (rw (lru, g, l) at h))
              (omega (arith, bytes-init f es), omega (arith, length-init f es))
        | inr l ↦
            subst (RemovedFrom (e ∷ f ∷ es))
              (Option.some-injective (suc n.0, n.1) m (rw (lru, g, l) at h))
              (omega (arith, tail.0), omega (arith, tail.1))
      ]
]

bytes-insert_by_access :
    (e : MemoryEntry) (xs : List MemoryEntry)
    → (bytes (insert_by_access e xs) ≡ estimated_bytes e + bytes xs)
      × (length (insert_by_access e xs) ≡ suc (length xs))
unfolding bytes insert_by_access
bytes-insert_by_access e [] = (refl, refl)
bytes-insert_by_access e (x ∷ xs) = let tail = bytes-insert_by_access e xs in ground (arith, tail)

pub bytes-sort_by_access :
    (es : List MemoryEntry)
    → (bytes (sort_by_access es) ≡ bytes es) × (length (sort_by_access es) ≡ length es)
unfolding bytes sort_by_access
bytes-sort_by_access [] = (refl, refl)
bytes-sort_by_access (e ∷ es) =
    let tail = bytes-sort_by_access es in
    ground (arith, tail, bytes-insert_by_access e (sort_by_access es))

pub bytes-remove_first :
    (n freed : ℕ) (es : List MemoryEntry)
    → (bytes (remove_first n freed es).1 + (remove_first n freed es).0 ≡ bytes es + freed)
      × (length (remove_first n freed es).1 ≤ length es)
unfolding bytes remove_first
bytes-remove_first zero freed es = (refl, omega arith)
bytes-remove_first (suc n) freed [] = (refl, omega arith)
bytes-remove_first (suc n) freed (e ∷ es) =
    let tail = bytes-remove_first n (freed + estimated_bytes e) es in
    (omega (arith, tail.0), omega (arith, tail.1))

-- The replaced entry is the first that `find` gives.
pub bytes-replace :
    (entry found : MemoryEntry) (es : List MemoryEntry)
    → find (has_key entry.key) es ≡ some found
    → (bytes (replace entry es) + estimated_bytes found ≡ bytes es + estimated_bytes entry)
      × (length (replace entry es) ≡ length es)
unfolding bytes replace
bytes-replace entry found [] h = absurd (ground arith)
bytes-replace entry found (e ∷ es) h = ground (arith, bytes-replace entry found es)

pub bytes-touch_key :
    (key : String) (now : ℕ) (es : List MemoryEntry)
    → (bytes (touch_key key now es) ≡ bytes es) × (length (touch_key key now es) ≡ length es)
unfolding bytes touch_key touch estimated_bytes
bytes-touch_key key now [] = (refl, refl)
bytes-touch_key key now (e ∷ es) = ground (arith, bytes-touch_key key now es)

-- Room is made by one entry at most, and then there is some.
pub make_room_lem :
    (limit total : ℕ) (es : List MemoryEntry)
    → bytes es ≤ total
    → total < 18446744073709551616
    → (bytes (make_room limit total es).1 + total ≡ bytes es + (make_room limit total es).0)
      × ((make_room limit total es).0 ≤ total)
      × (length es ≤ limit → 0 < limit → length (make_room limit total es).1 < limit)
unfolding make_room bytes
make_room_lem limit total es b t = elim (Bool-cases (leb limit (length es))) [
  | inr l ↦ ground (arith, l)
  | inl l ↦ elim (Option-cases (lru es)) [
    | inl g ↦ rw (make_room, l, g) (refl, omega arith, λ c z. ground (arith, lru-none es g))
    | inr (m, g) ↦
        let gone = bytes-swap_remove es m g in
        rw (make_room, l, g)
          (omega (arith, gone.0), omega (arith, gone.0), λ c z. omega (arith, gone.1))
  ]
]

-- An upsert keeps the total in step, and the number of entries at the limit.
pub upsert_lem :
    (limit total : ℕ) (entry : MemoryEntry) (es : List MemoryEntry)
    → bytes es ≤ total
    → total + estimated_bytes entry < 18446744073709551616
    → (bytes (upsert limit total entry es).1 + total ≡ bytes es + (upsert limit total entry es).0)
      × ((upsert limit total entry es).0 ≤ total + estimated_bytes entry)
      × (length es ≤ limit → 0 < limit → length (upsert limit total entry es).1 ≤ limit)
unfolding upsert bytes
upsert_lem limit total entry es b t = elim (Option-cases (find (has_key entry.key) es)) [
  | inr (e, g) ↦
      let swapped = bytes-replace entry e es g in
      rw (upsert, g)
        (omega (arith, swapped.0), omega (arith, swapped.0), λ c z. omega (arith, swapped.1))
  | inl g ↦
      let room = make_room_lem limit total es b (omega arith) in
      let grown = (make_room limit total es).1 in
      rw (upsert, g)
        (
          omega (arith, room.0, room.1, bytes-append grown (entry ∷ [])),
          omega (arith, room.1),
          λ c z. omega (arith, room.2 c z, length-append grown (entry ∷ [])),
        )
]
