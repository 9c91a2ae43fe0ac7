-- ===== src/Sandbox/ViolationTracker/Quarantine.antt =====
-- Who is in quarantine after any sequence of calls of the violation tracker.
use ughi.Prelude.{
  ℕ, suc, ◌≤◌, ◌<◌, ◌≡◌, refl, ap, String, eq_iff, str_eq, Bool, true, false, ◌&&◌, List, [], ◌∷◌,
  ◌++◌, arith, leb, if◌then◌else◌, length, length-append, Bool-cases, inl, inr, u32,
}
use ughi.Prelude.Dict
use ughi.Prelude.Dict.{Dict, lookup-insert, lookup-remove}
use ughi.Sandbox.ViolationTracker.{
  ViolationTracker, Violation, new, register, release, is_quarantined, agent_violations,
  quarantine_threshold,
}

-- A call of the tracker.
pub data Call : Type 0 where
  registers : String → String → String → ℕ → Call
  releases : String → Call

unfoldable pub step : ViolationTracker → Call → ViolationTracker
step t (registers id skill reason now) = (register t id skill reason now).0
step t (releases id) = release t id

-- The latest call comes first.
unfoldable pub run : List Call → ViolationTracker
run [] = new
run (c ∷ cs) = step (run cs) c

-- The violations of an agent since its last release.
unfoldable pub strikes : String → List Call → ℕ
strikes id [] = 0
strikes id (registers j skill reason now ∷ cs) =
    let rest = strikes id cs in if str_eq j id then suc rest else rest
strikes id (releases j ∷ cs) = let rest = strikes id cs in if str_eq j id then 0 else rest

module _ (t : ViolationTracker) (j skill reason : String) (now : ℕ) where
  history : List Violation
  history =
      agent_violations t j
      ++ (record { agent_id = j; skill = skill; reason = reason; timestamp_ms = now } ∷ [])

  reaches : Bool
  reaches = leb quarantine_threshold (u32 (length history))

  violations-register :
      (register t j skill reason now).0.violations ≡ Dict.insert j history t.violations
  unfolding register history reaches agent_violations Dict.insert
  violations-register = elim (Bool-cases reaches) [
    | inl e ↦ rw (reaches, e) refl
    | inr e ↦ rw (reaches, e) refl
  ]

  quarantined-register :
      (register t j skill reason now).0.quarantined
      ≡ (if reaches then Dict.insert j now t.quarantined else t.quarantined)
  unfolding register history reaches agent_violations Dict.insert
  quarantined-register = elim (Bool-cases reaches) [
    | inl e ↦ rw (reaches, e) refl
    | inr e ↦ rw (reaches, e) refl
  ]

  length-history : length history ≡ suc (length (agent_violations t j))
  unfolding history
  length-history = omega (
    arith,
    length-append (agent_violations t j)
        (record { agent_id = j; skill = skill; reason = reason; timestamp_ms = now } ∷ []),
  )

  agent_violations-register :
      (id : String)
      → length (agent_violations (register t j skill reason now).0 id) ≡ (
          if str_eq j id
          then suc (length (agent_violations t id))
          else length (agent_violations t id))
  unfolding agent_violations
  agent_violations-register id = ground (
    arith,
    eq_iff j id,
    ap (Dict.lookup id) violations-register,
    lookup-insert j id history t.violations,
    length-history,
  )

  is_quarantined-register :
      (id : String)
      → length (agent_violations t j) < 4294967295
      → is_quarantined (register t j skill reason now).0 id ≡ (
          if str_eq j id && leb 5 (suc (length (agent_violations t id)))
          then true
          else is_quarantined t id)
  unfolding is_quarantined Dict.contains_key reaches
  is_quarantined-register id l = ground (
    arith,
    eq_iff j id,
    ap (Dict.lookup id) quarantined-register,
    lookup-insert j id now t.quarantined,
    length-history,
  )

module _ (t : ViolationTracker) (j id : String) where
  agent_violations-release :
      length (agent_violations (release t j) id)
      ≡ (if str_eq j id then 0 else length (agent_violations t id))
  unfolding release agent_violations
  agent_violations-release = ground (arith, lookup-remove j id t.violations)

  is_quarantined-release :
      is_quarantined (release t j) id ≡ (if str_eq j id then false else is_quarantined t id)
  unfolding release is_quarantined Dict.contains_key
  is_quarantined-release = ground (arith, lookup-remove j id t.quarantined)

length-agent_violations :
    (id : String) (cs : List Call) → length (agent_violations (run cs) id) ≡ strikes id cs
unfolding run step strikes new agent_violations Dict.lookup
length-agent_violations id [] = refl
length-agent_violations id (registers j skill reason now ∷ cs) =
    ground (
      arith,
      agent_violations-register (run cs) j skill reason now id,
      length-agent_violations id cs,
    )
length-agent_violations id (releases j ∷ cs) =
    ground (arith, agent_violations-release (run cs) j id, length-agent_violations id cs)

strikes-le : (id : String) (cs : List Call) → strikes id cs ≤ length cs
unfolding strikes
strikes-le id [] = omega arith
strikes-le id (registers j skill reason now ∷ cs) = ground (arith, strikes-le id cs)
strikes-le id (releases j ∷ cs) = ground (arith, strikes-le id cs)

-- After any calls on a new tracker (fewer than 2 ^ 32 of them, the range of its counter), an agent
-- is in quarantine exactly when it had five violations or more since its last release.
pub is_quarantined-run :
    (id : String) (cs : List Call)
    → length cs < 4294967296
    → is_quarantined (run cs) id ≡ leb quarantine_threshold (strikes id cs)
unfolding run step strikes new is_quarantined Dict.contains_key
is_quarantined-run id [] l = refl
is_quarantined-run id (registers j skill reason now ∷ cs) l = ground (
  arith,
  eq_iff j id,
  is_quarantined-register (run cs) j skill reason now id,
  length-agent_violations id cs,
  length-agent_violations j cs,
  strikes-le j cs,
  is_quarantined-run id cs,
)
is_quarantined-run id (releases j ∷ cs) l =
    ground (arith, is_quarantined-release (run cs) j id, is_quarantined-run id cs)
