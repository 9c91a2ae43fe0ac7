-- ===== src/Runtime/SelfHealing/Streak.antt =====
-- The healing action against the crashes since the last recovery.
use ughi.Prelude.{
  ℕ, suc, ◌+◌, ◌<◌, ◌≤◌, ◌≡◌, refl, ap, ◌∙◌, String, str_eq, eq_iff, List, [], ◌∷◌, ◌++◌, arith,
  inl, inr, Bool-cases, leb, any, contains, if◌then◌else◌, u32, length, length-append, Option-cases,
}
use ughi.Prelude.Dict
use ughi.Prelude.Dict.{lookup-insert, lookup-remove, lookup-adjust}
use ughi.Runtime.SelfHealing.{
  SelfHealingManager, CrashRecord, new, restarts, records, mark_last, on_crash, on_recovery,
  crash_count, classify, action_for, HealingAction, restart, restart_with_reduced_memory,
  restart_with_lower_priority, quarantine,
}

pub data Event : Type 0 where
  crashes : String → String → ℕ → Event
  recovers : String → Event

module _ (lower : String → String) where
  unfoldable pub step : SelfHealingManager → Event → SelfHealingManager
  step m (crashes id reason now) = (on_crash lower m id reason now).0
  step m (recovers id) = on_recovery m id

  unfoldable pub run : SelfHealingManager → List Event → SelfHealingManager
  run m [] = m
  run m (e ∷ es) = run (step m e) es

-- The reference: the crashes of an agent since its last recovery, and all of them.
abbrev pub streak : String → ℕ → List Event → ℕ
streak a n [] = n
streak a n (crashes id reason now ∷ es) = streak a (if str_eq id a then n + 1 else n) es
streak a n (recovers id ∷ es) = streak a (if str_eq id a then 0 else n) es

abbrev pub crashed : String → List Event → ℕ
crashed a [] = 0
crashed a (crashes id reason now ∷ es) = (if str_eq id a then 1 else 0) + crashed a es
crashed a (recovers id ∷ es) = crashed a es

streak-le : (a : String) (n : ℕ) (es : List Event) → streak a n es ≤ n + length es
streak-le a n [] = omega arith
streak-le a n (crashes id reason now ∷ es) =
    ground (arith, streak-le a n es, streak-le a (n + 1) es)
streak-le a n (recovers id ∷ es) = ground (arith, streak-le a n es, streak-le a 0 es)

restarts-on_crash :
    (lower : String → String) (m : SelfHealingManager) (id reason a : String) (now : ℕ)
    → restarts m a + 1 < 4294967296
    → restarts (on_crash lower m id reason now).0 a
      ≡ (if str_eq id a then restarts m a + 1 else restarts m a)
unfolding restarts on_crash
restarts-on_crash lower m id reason a now b = elim (Bool-cases (str_eq id a)) [
  | inr e ↦
      rw (restarts, on_crash, lookup-insert id a (u32 (restarts m id + 1)) m.restart_counts, e) refl
  | inl e ↦
      rw (restarts, on_crash, lookup-insert id a (u32 (restarts m id + 1)) m.restart_counts, e)
        (rw ((eq_iff id a).0 e) (omega (arith, b)))
]

restarts-on_recovery :
    (m : SelfHealingManager) (id a : String)
    → restarts (on_recovery m id) a ≡ (if str_eq id a then 0 else restarts m a)
unfolding restarts on_recovery
restarts-on_recovery m id a = ground (arith, lookup-remove id a m.restart_counts)

length-mark_last : (rs : List CrashRecord) → length (mark_last rs) ≡ length rs
unfolding mark_last
length-mark_last [] = refl
length-mark_last (r ∷ []) = refl
length-mark_last (r ∷ q ∷ rs) = ap suc (length-mark_last (q ∷ rs))

length_one_more :
    (rs : List CrashRecord) (r : CrashRecord) → length (rs ++ (r ∷ [])) ≡ 1 + length rs
length_one_more rs r = omega (arith, length-append rs (r ∷ []))

records-on_crash :
    (lower : String → String) (m : SelfHealingManager) (id reason a : String) (now : ℕ)
    → length (records (on_crash lower m id reason now).0 a)
      ≡ (if str_eq id a then 1 else 0) + length (records m a)
unfolding records on_crash
records-on_crash lower m id reason a now = elim (Bool-cases (str_eq id a)) [
  | inr e ↦ rw (records, on_crash, lookup-insert id a _ m.crash_history, e) (omega arith)
  | inl e ↦
      rw (records, on_crash, lookup-insert id a _ m.crash_history, e)
        (rw ((eq_iff id a).0 e) (length_one_more (records m a) _))
]

records-on_recovery :
    (m : SelfHealingManager) (id a : String)
    → length (records (on_recovery m id) a) ≡ length (records m a)
unfolding records on_recovery
records-on_recovery m id a = elim (Option-cases (Dict.lookup a m.crash_history)) [
  | inl g ↦
      rw (records, on_recovery, lookup-adjust id a mark_last m.crash_history, g)
        (elim (Bool-cases (str_eq id a)) [ inl e ↦ rw e refl | inr e ↦ rw e refl ])
  | inr (rs, g) ↦
      rw (records, on_recovery, lookup-adjust id a mark_last m.crash_history, g)
        (elim (Bool-cases (str_eq id a)) [ inl e ↦ rw e (length-mark_last rs) | inr e ↦ rw e refl ])
]

restarts-run :
    (lower : String → String) (m : SelfHealingManager) (a : String) (es : List Event)
    → restarts m a + length es < 4294967296
    → restarts (run lower m es) a ≡ streak a (restarts m a) es
unfolding run step
restarts-run lower m a [] b = refl
restarts-run lower m a (crashes id reason now ∷ es) b =
    let one = restarts-on_crash lower m id reason a now (omega (arith, b)) in
    restarts-run lower (on_crash lower m id reason now).0 a es (ground (arith, one, b))
    ∙ ap (λ n. streak a n es) one
restarts-run lower m a (recovers id ∷ es) b =
    let one = restarts-on_recovery m id a in
    restarts-run lower (on_recovery m id) a es (ground (arith, one, b))
    ∙ ap (λ n. streak a n es) one

records-run :
    (lower : String → String) (m : SelfHealingManager) (a : String) (es : List Event)
    → length (records (run lower m es) a) ≡ crashed a es + length (records m a)
unfolding run step
records-run lower m a [] = omega arith
records-run lower m a (crashes id reason now ∷ es) = omega (
  arith,
  records-run lower (on_crash lower m id reason now).0 a es,
  records-on_crash lower m id reason a now,
)
records-run lower m a (recovers id ∷ es) =
    omega (arith, records-run lower (on_recovery m id) a es, records-on_recovery m id a)

new-restarts : (a : String) → restarts new a ≡ 0
unfolding restarts new Dict.lookup
new-restarts a = refl

new-records : (a : String) → length (records new a) ≡ 0
unfolding records new Dict.lookup
new-records a = refl

-- The reference for the cause: the keywords of a cause with its action, the first row that applies decides.
abbrev treatments : List (List String × HealingAction)
treatments =
    ("memory" ∷ "oom" ∷ "budget" ∷ [], restart_with_reduced_memory 100)
    ∷ ("timeout" ∷ "deadline" ∷ [], restart_with_lower_priority)
    ∷ ("sandbox" ∷ "capability" ∷ "violation" ∷ [], quarantine)
    ∷ []

abbrev treat : List (List String × HealingAction) → String → HealingAction
treat [] text = restart
treat ((keywords, action) ∷ rows) text =
    if any (contains text) keywords then action else treat rows text

-- The action for the given crash since the last recovery, by the text of its reason.
abbrev pub treatment : ℕ → String → HealingAction
treatment n text = if leb 4 n then quarantine else treat treatments text

treat-classify :
    (lower : String → String) (reason : String)
    → action_for (classify lower reason) ≡ treat treatments (lower reason)
unfolding action_for classify
treat-classify lower reason = ground arith

action-on_crash :
    (lower : String → String) (m : SelfHealingManager) (a reason : String) (now : ℕ)
    → restarts m a + 1 < 4294967296
    → (on_crash lower m a reason now).1 ≡ treatment (restarts m a + 1) (lower reason)
unfolding on_crash
action-on_crash lower m a reason now b = ground (arith, treat-classify lower reason)

crashed-le : (a : String) (es : List Event) → crashed a es ≤ length es
crashed-le a [] = omega arith
crashed-le a (crashes id reason now ∷ es) = ground (arith, crashed-le a es)
crashed-le a (recovers id ∷ es) = omega (arith, crashed-le a es)

-- After any fewer than 2 ^ 32 - 1 crashes and recoveries of any agents from a new manager, the action for the
-- next crash of an agent is a quarantine if it is the fourth or a later one since the agent's last recovery.
-- Otherwise it goes by the lower-cased reason: with "memory", "oom" or "budget" in it the agent restarts with 100
-- MB, else with "timeout" or "deadline" it restarts with a lower priority, else with "sandbox", "capability" or
-- "violation" it is quarantined, and else it restarts. The crash count of an agent is the number of all its
-- crashes.
pub on_crash-run :
    (lower : String → String) (es : List Event) (a reason : String) (now : ℕ)
    → length es < 4294967295
    → ((on_crash lower (run lower new es) a reason now).1
        ≡ treatment (streak a 0 es + 1) (lower reason))
      × (crash_count (run lower new es) a ≡ crashed a es)
unfolding crash_count
on_crash-run lower es a reason now b =
    let past : restarts (run lower new es) a ≡ streak a 0 es =
      restarts-run lower new a es (omega (arith, new-restarts a))
      ∙ ap (λ n. streak a n es) (new-restarts a) in
    (
      action-on_crash lower (run lower new es) a reason now (omega (arith, past, streak-le a 0 es))
          ∙ ap (λ n. treatment (n + 1) (lower reason)) past,
      omega (arith, records-run lower new a es, new-records a, crashed-le a es, b),
    )
