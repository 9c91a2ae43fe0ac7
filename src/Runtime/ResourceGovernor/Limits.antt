-- ===== src/Runtime/ResourceGovernor/Limits.antt =====
-- The limit on the active agents, and what hibernation keeps.
use ughi.Prelude.{
  ℕ, ◌+◌, ◌≤◌, ◌<◌, ◌≡◌, refl, ◌∙◌, String, eq_refl, eq_iff, none, some, List, [], ◌∷◌, arith, ltb,
  leb, Bool-cases, Option-cases, inl, inr, u32, u64,
}
use ughi.Prelude.Dict
use ughi.Prelude.Dict.{Dict, IsMap, IsMap-insert, IsMap-remove, lookup-insert, lookup-remove}
use ughi.Runtime.ResourceGovernor.{
  ResourceGovernor, HibernatedState, with_limit, new, register_active, hibernate, resume,
  remove_active,
}

pub record IsWithin (g : ResourceGovernor) : Type 0 where
  pub is_word : g.max_concurrent < 4294967296
  pub within : g.active_count ≤ g.max_concurrent
  pub is_map : IsMap g.hibernated

-- A call of the governor.
pub data Act : Type 0 where
  registers leaves : Act
  hibernates : HibernatedState → Act
  resumes : String → Act

unfoldable pub act : ResourceGovernor → Act → ResourceGovernor
act g registers = (register_active g).0
act g leaves = remove_active g
act g (hibernates s) = hibernate g s
act g (resumes id) = (resume g id).0

unfoldable pub acts : ResourceGovernor → List Act → ResourceGovernor
acts g [] = g
acts g (a ∷ rest) = acts (act g a) rest

resume-known :
    (g : ResourceGovernor) (id : String) (s : HibernatedState)
    → Dict.lookup id g.hibernated ≡ some s
    → g.active_count < g.max_concurrent
    → resume g id ≡ (
      record g {
        hibernated = Dict.remove id g.hibernated;
        active_count = u32 (g.active_count + 1);
        total_resumes = u64 (g.total_resumes + 1);
      },
      some s,
    )
unfolding resume
resume-known g id s e l = ground arith

resume-full :
    (g : ResourceGovernor) (id : String) (s : HibernatedState)
    → Dict.lookup id g.hibernated ≡ some s
    → g.max_concurrent ≤ g.active_count
    → resume g id ≡ (record g { hibernated = Dict.insert id s (Dict.remove id g.hibernated) }, none)
unfolding resume
resume-full g id s e l = ground arith

resume-unknown :
    (g : ResourceGovernor) (id : String)
    → Dict.lookup id g.hibernated ≡ none
    → resume g id ≡ (g, none)
unfolding resume
resume-unknown g id e = ground arith

register_active-IsWithin : (g : ResourceGovernor) → IsWithin g → IsWithin (register_active g).0
unfolding register_active
register_active-IsWithin g v = elim (Bool-cases (leb g.max_concurrent g.active_count)) [
  | inl full ↦ rw full v
  | inr room ↦ rw room (record {
    is_word = v.is_word;
    within = ground (arith, v.is_word, v.within, room);
    is_map = v.is_map;
  })
]

resume-IsWithin : (g : ResourceGovernor) (id : String) → IsWithin g → IsWithin (resume g id).0
resume-IsWithin g id v = elim (Option-cases (Dict.lookup id g.hibernated)) [
  | inl e ↦ rw (resume-unknown g id e) v
  | inr (s, e) ↦ elim (Bool-cases (ltb g.active_count g.max_concurrent)) [
    | inl room ↦ rw (resume-known g id s e (ground (arith, room))) (record {
      is_word = v.is_word;
      within = ground (arith, v.is_word, v.within, room);
      is_map = IsMap-remove id g.hibernated v.is_map;
    })
    | inr full ↦ rw (resume-full g id s e (ground (arith, full))) (record {
      is_word = v.is_word;
      within = v.within;
      is_map = IsMap-insert id s _ (IsMap-remove id g.hibernated v.is_map);
    })
  ]
]

act-IsWithin : (g : ResourceGovernor) (a : Act) → IsWithin g → IsWithin (act g a)
unfolding act hibernate remove_active
act-IsWithin g registers v = register_active-IsWithin g v
act-IsWithin g leaves v = record {
  is_word = v.is_word;
  within = omega (arith, v.within);
  is_map = v.is_map;
}
act-IsWithin g (hibernates s) v = record {
  is_word = v.is_word;
  within = omega (arith, v.within);
  is_map = IsMap-insert s.agent_id s g.hibernated v.is_map;
}
act-IsWithin g (resumes id) v = resume-IsWithin g id v

acts-IsWithin : (g : ResourceGovernor) (rest : List Act) → IsWithin g → IsWithin (acts g rest)
unfolding acts
acts-IsWithin g [] v = v
acts-IsWithin g (a ∷ rest) v = acts-IsWithin (act g a) rest (act-IsWithin g a v)

-- From a new governor with a limit that is a `u32`, any calls in any order keep the number of active
-- agents at or below the limit, and every agent id has at most one hibernated state.
pub acts-with_limit :
    (limit : ℕ) (rest : List Act) → limit < 4294967296 → IsWithin (acts (with_limit limit) rest)
unfolding with_limit new
acts-with_limit limit rest l =
    acts-IsWithin (with_limit limit) rest
      (record { is_word = l; within = omega arith; is_map = tt })

-- A state that was put away under a fresh id comes back unchanged, the governor then has the active
-- agents it had, and the other hibernated states are as they were: here with an active agent to put
-- away, within the limit.
pub resume-hibernate :
    (g : ResourceGovernor) (s : HibernatedState)
    → IsWithin g
    → 0 < g.active_count
    → Dict.lookup s.agent_id g.hibernated ≡ none
    → let after = resume (hibernate g s) s.agent_id in
      (after.1 ≡ some s)
      × (after.0.active_count ≡ g.active_count)
      × ((j : String) → Dict.lookup j after.0.hibernated ≡ Dict.lookup j g.hibernated)
unfolding hibernate
resume-hibernate g s v busy fresh =
    let stored : Dict.lookup s.agent_id (hibernate g s).hibernated ≡ some s =
      lookup-insert s.agent_id s.agent_id s g.hibernated ∙ rw (eq_refl s.agent_id) refl in
    rw (resume-known (hibernate g s) s.agent_id s stored (omega (arith, v.within, busy))) (
      refl,
      omega (arith, v.is_word, v.within, busy),
      λ j. ground (
        arith,
        eq_iff s.agent_id j,
        lookup-remove s.agent_id j (Dict.insert s.agent_id s g.hibernated),
        lookup-insert s.agent_id j s g.hibernated,
      ),
    )

-- At the limit, `resume` returns nothing and loses nothing: the active agents stay and every id has
-- the state it had.
pub resume_at_limit :
    (g : ResourceGovernor) (id : String)
    → g.max_concurrent ≤ g.active_count
    → ((resume g id).1 ≡ none)
      × ((resume g id).0.active_count ≡ g.active_count)
      × ((j : String) → Dict.lookup j (resume g id).0.hibernated ≡ Dict.lookup j g.hibernated)
resume_at_limit g id full = elim (Option-cases (Dict.lookup id g.hibernated)) [
  | inl e ↦ rw (resume-unknown g id e) (refl, refl, λ j. refl)
  | inr (s, e) ↦ rw (resume-full g id s e full) (
    refl,
    refl,
    λ j. ground (
      arith,
      eq_iff id j,
      lookup-insert id j s (Dict.remove id g.hibernated),
      lookup-remove id j g.hibernated,
    ),
  )
]
