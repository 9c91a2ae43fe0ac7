-- ===== src/Memory/ShortTerm/Eviction.antt =====
-- What the system-wide eviction frees: enough, or everything.
use ughi.Prelude.{
  String, ℕ, suc, ◌+◌, ◌≤◌, ◌≡◌, refl, sym, ap, ◌∙◌, ◌⊎◌, inl, inr, str_eq, eq_iff, eq_refl, none,
  some, List, [], ◌∷◌, arith, Bool-cases, Option-cases, leb, leb→le, if◌then◌else◌, length, count,
  count-append,
}
use ughi.Prelude.Dict
use ughi.Prelude.Dict.{Dict, IsMap, IsMap-adjust, total-adjust, lookup-adjust}
use ughi.Memory.Types.{MemoryEntry}
use ughi.Memory.ShortTerm.{
  bytes, lru, swap_remove, candidates_of, candidates, insert_candidate, sort_candidates, evict_from,
  evict_loop,
}
use ughi.Memory.ShortTerm.Bytes.{bytes-swap_remove, lru-none}

abbrev pub Store : Type 0
Store = Dict (List MemoryEntry)

abbrev pub stored_bytes : Store → ℕ
stored_bytes d = Dict.total bytes d

-- How many entries an agent has, and how many candidates.
pub remaining : String → Store → ℕ
remaining a d = elim (Dict.lookup a d) [ none ↦ 0 | some es ↦ length es ]

abbrev pub claims : String → List (String × ℕ) → ℕ
claims a cs = count (λ c. str_eq c.0 a) cs

abbrev pub Covered : Store → List (String × ℕ) → Type 0
Covered d cs = (a : String) → remaining a d ≤ claims a cs

claims-candidates_of :
    (a j : String) (es : List MemoryEntry)
    → claims a (candidates_of j es) ≡ (if str_eq j a then length es else 0)
unfolding candidates_of
claims-candidates_of a j [] = ground arith
claims-candidates_of a j (e ∷ es) = ground (arith, claims-candidates_of a j es)

Covered-candidates : (d : Store) → Covered d (candidates d)
unfolding candidates remaining Dict.lookup
Covered-candidates [] a = omega arith
Covered-candidates ((j, es) ∷ d) a = ground (
  arith,
  Covered-candidates d a,
  claims-candidates_of a j es,
  count-append (λ (c : String × ℕ). str_eq c.0 a) (candidates_of j es) (candidates d),
)

claims-insert_candidate :
    (a : String) (c : String × ℕ) (cs : List (String × ℕ))
    → claims a (insert_candidate c cs) ≡ claims a (c ∷ cs)
unfolding insert_candidate
claims-insert_candidate a c [] = refl
claims-insert_candidate a c (x ∷ xs) = ground (arith, claims-insert_candidate a c xs)

claims-sort_candidates :
    (a : String) (cs : List (String × ℕ)) → claims a (sort_candidates cs) ≡ claims a cs
unfolding sort_candidates
claims-sort_candidates a [] = refl
claims-sort_candidates a (c ∷ cs) =
    omega (arith, claims-insert_candidate a c (sort_candidates cs), claims-sort_candidates a cs)

pub Covered-sorted : (d : Store) → Covered d (sort_candidates (candidates d))
Covered-sorted d a = omega (arith, claims-sort_candidates a (candidates d), Covered-candidates d a)

remaining_tail :
    (a j : String) (es : List MemoryEntry) (d : Store)
    → Dict.lookup j d ≡ none
    → remaining a d ≤ remaining a ((j, es) ∷ d)
unfolding remaining Dict.lookup
remaining_tail a j es d h = ground (arith, eq_iff j a)

remaining_head :
    (j : String) (es : List MemoryEntry) (d : Store) → remaining j ((j, es) ∷ d) ≡ length es
unfolding remaining Dict.lookup
remaining_head j es d = rw (remaining, eq_refl j) refl

-- Without candidates nothing is stored.
bytes_uncovered : (d : Store) → IsMap d → Covered d [] → stored_bytes d ≡ 0
unfolding Dict.total remaining Dict.lookup bytes
bytes_uncovered [] m h = refl
bytes_uncovered ((j, []) ∷ d) m h =
    let rest = bytes_uncovered d m.1 (λ a. omega (arith, remaining_tail a j [] d m.0, h a)) in
    omega (arith, rest)
bytes_uncovered ((j, e ∷ es) ∷ d) m h = absurd (omega (arith, remaining_head j (e ∷ es) d, h j))

remaining_pass :
    (a : String) (c : String × ℕ) (cs : List (String × ℕ)) (d : Store)
    → remaining c.0 d ≡ 0
    → remaining a d ≤ claims a (c ∷ cs)
    → remaining a d ≤ claims a cs
unfolding remaining
remaining_pass a c cs d z h = elim (Bool-cases (str_eq c.0 a)) [
  | inl e ↦ rw (sym ((eq_iff c.0 a).0 e)) (omega (arith, z))
  | inr e ↦ ground (arith, e)
]

remaining_taken :
    (a : String) (c : String × ℕ) (cs : List (String × ℕ)) (d : Store) (es : List MemoryEntry)
    (i : ℕ)
    → Dict.lookup c.0 d ≡ some es
    → suc (length (swap_remove i es)) ≡ length es
    → remaining a d ≤ claims a (c ∷ cs)
    → remaining a (Dict.adjust c.0 (swap_remove i) d) ≤ claims a cs
unfolding remaining
remaining_taken a c cs d es i g l h = elim (Bool-cases (str_eq c.0 a)) [
  | inl e ↦ ground (arith, e, lookup-adjust c.0 a (swap_remove i) d, (eq_iff c.0 a).0 e)
  | inr e ↦ ground (arith, e, lookup-adjust c.0 a (swap_remove i) d)
]

remaining-some :
    (a : String) (d : Store) (es : List MemoryEntry)
    → Dict.lookup a d ≡ some es
    → remaining a d ≡ length es
unfolding remaining
remaining-some a d es g = rw (remaining, g) refl

remaining-none : (a : String) (d : Store) → Dict.lookup a d ≡ none → remaining a d ≡ 0
unfolding remaining
remaining-none a d g = rw (remaining, g) refl

evict_from_lem :
    (c : String × ℕ) (cs : List (String × ℕ)) (d : Store) (freed : ℕ)
    → IsMap d
    → Covered d (c ∷ cs)
    → IsMap (evict_from c.0 d freed).0
      × (stored_bytes (evict_from c.0 d freed).0 + (evict_from c.0 d freed).1
          ≡ stored_bytes d + freed)
      × Covered (evict_from c.0 d freed).0 cs
unfolding evict_from
evict_from_lem c cs d freed m h = elim (Option-cases (Dict.lookup c.0 d)) [
  | inl g ↦
      rw (evict_from, g) (m, refl, λ a. remaining_pass a c cs d (remaining-none c.0 d g) (h a))
  | inr (es, g) ↦ elim (Option-cases (lru es)) [
    | inl l ↦
        rw (evict_from, g, l)
          (
            m,
            refl,
            λ a.
                remaining_pass a c cs d (remaining-some c.0 d es g ∙ ap length (lru-none es l))
                  (h a),
          )
    | inr (n, l) ↦
        let gone = bytes-swap_remove es n l in
        rw (evict_from, g, l)
          (
            IsMap-adjust c.0 (swap_remove n.0) d m,
            omega (arith, gone.0, total-adjust bytes c.0 es (swap_remove n.0) d g),
            λ a. remaining_taken a c cs d es n.0 g gone.1 (h a),
          )
  ]
]

-- The eviction loop: what is freed is no longer stored, and the target is reached or nothing is left.
pub evict_loop_lem :
    (target : ℕ) (cs : List (String × ℕ)) (d : Store) (freed : ℕ)
    → IsMap d
    → Covered d cs
    → IsMap (evict_loop target cs d freed).0
      × (stored_bytes (evict_loop target cs d freed).0 + (evict_loop target cs d freed).1
          ≡ stored_bytes d + freed)
      × ((target ≤ (evict_loop target cs d freed).1)
          ⊎ (stored_bytes (evict_loop target cs d freed).0 ≡ 0))
unfolding evict_loop
evict_loop_lem target [] d freed m h = (m, refl, inr (bytes_uncovered d m h))
evict_loop_lem target (c ∷ cs) d freed m h = elim (Bool-cases (leb target freed)) [
  | inl l ↦ rw (evict_loop, l) (m, refl, inl (leb→le target freed l))
  | inr l ↦
      let once = evict_from_lem c cs d freed m h in
      let next = evict_from c.0 d freed in
      let rest = evict_loop_lem target cs next.0 next.1 once.0 once.2 in
      rw (evict_loop, l) (rest.0, rest.1 ∙ once.1, rest.2)
]
