-- ===== src/Memory/ShortTerm/Runs.antt =====
-- Any sequence of calls on the store.
use ughi.Prelude.{
  String, ℕ, ◌≤◌, ◌≡◌, refl, inl, inr, List, [], ◌∷◌, arith, Option-cases, length, All, find,
}
use ughi.Prelude.Dict
use ughi.Prelude.Dict.{
  IsMap-adjust, IsMap-remove, total-adjust, total-remove, All-adjust, All-remove,
}
use ughi.Memory.Types.{MemoryEntry, estimated_bytes}
use ughi.Memory.ShortTerm.{
  ShortTermStore, new, system_budget_bytes, bytes, ensure_agent, within_system, within_agent,
  as_short_term, put, touch_key, has_key, get, delete_namespace,
}
use ughi.Memory.ShortTerm.Bytes.{bytes-touch_key}
use ughi.Memory.ShortTerm.Accounting.{
  IsAccounted, within_system_lem, ensure_agent_lem, within_agent_lem, store_in_lem,
}

-- In step, and in the budget.
pub record IsWithin (s : ShortTermStore) : Type 0 where
  pub in_step : IsAccounted s
  pub bounded : s.total_bytes ≤ system_budget_bytes

pub data Call : Type 0 where
  puts : MemoryEntry → Call
  gets : String → String → ℕ → Call
  deletes : String → Call

unfoldable pub step : ShortTermStore → Call → ShortTermStore
step s (puts e) = put s e
step s (gets agent_id key now) = (get s agent_id key now).0
step s (deletes agent_id) = delete_namespace s agent_id

unfoldable pub run : ShortTermStore → List Call → ShortTermStore
run s [] = s
run s (c ∷ cs) = run (step s c) cs

-- An entry that is put is itself no larger than the budget.
abbrev pub Fits : Call → Type 0
Fits (puts e) = estimated_bytes e ≤ system_budget_bytes
Fits (gets agent_id key now) = Unit
Fits (deletes agent_id) = Unit

new-IsWithin : IsWithin new
unfolding new Dict.total
new-IsWithin = record {
  in_step = record { distinct = tt; accounted = refl; capped = tt; limited = omega arith };
  bounded = omega arith;
}

pub estimated-as_short_term :
    (e : MemoryEntry) → estimated_bytes (as_short_term e) ≡ estimated_bytes e
unfolding estimated_bytes as_short_term
estimated-as_short_term e = refl

put-IsWithin :
    (s : ShortTermStore) (e : MemoryEntry)
    → IsWithin s
    → estimated_bytes e ≤ system_budget_bytes
    → IsWithin (put s e)
unfolding put
put-IsWithin s e h b =
    let entry = as_short_term e in
    let one =
      within_system_lem s entry h.in_step h.bounded (omega (arith, estimated-as_short_term e)) in
    let two = ensure_agent_lem (within_system s entry) entry.agent_id one.0 in
    let ready = ensure_agent (within_system s entry) entry.agent_id in
    let three = within_agent_lem ready entry two.0 in
    let four =
      store_in_lem (within_agent ready entry) entry three.0
        (omega (arith, one.1, two.1, three.1)) in
    record { in_step = four.0; bounded = four.1 }

get-IsWithin :
    (s : ShortTermStore) (a key : String) (now : ℕ) → IsWithin s → IsWithin (get s a key now).0
unfolding get
get-IsWithin s a key now h = elim (Option-cases (Dict.lookup a s.entries)) [
  | inl g ↦ rw (get, g) h
  | inr (es, g) ↦ elim (Option-cases (find (has_key key) es)) [
    | inl f ↦ rw (get, g, f) h
    | inr (e, f) ↦
        let same = bytes-touch_key key now es in
        rw (get, g, f)
          (record {
            in_step = record {
              distinct = IsMap-adjust a (touch_key key now) s.entries h.in_step.distinct;
              accounted = omega (
                arith,
                h.in_step.accounted,
                same.0,
                total-adjust bytes a es (touch_key key now) s.entries g,
              );
              capped =
                  All-adjust (λ (fs : List MemoryEntry). length fs ≤ s.max_entries_per_agent) a
                    (touch_key key now) s.entries
                    (λ v c. omega (arith, (bytes-touch_key key now v).1)) h.in_step.capped;
              limited = h.in_step.limited;
            };
            bounded = h.bounded;
          })
  ]
]

delete_namespace-IsWithin :
    (s : ShortTermStore) (a : String) → IsWithin s → IsWithin (delete_namespace s a)
unfolding delete_namespace
delete_namespace-IsWithin s a h = elim (Option-cases (Dict.lookup a s.entries)) [
  | inl g ↦ rw (delete_namespace, g) h
  | inr (es, g) ↦
      let freed = total-remove bytes a es s.entries h.in_step.distinct g in
      rw (delete_namespace, g)
        (record {
          in_step = record {
            distinct = IsMap-remove a s.entries h.in_step.distinct;
            accounted = omega (arith, h.in_step.accounted, h.bounded, freed);
            capped =
                All-remove (λ (fs : List MemoryEntry). length fs ≤ s.max_entries_per_agent) a
                  s.entries h.in_step.capped;
            limited = h.in_step.limited;
          };
          bounded = omega (arith, h.in_step.accounted, h.bounded, freed);
        })
]

step-IsWithin : (s : ShortTermStore) (c : Call) → IsWithin s → Fits c → IsWithin (step s c)
unfolding step
step-IsWithin s (puts e) h f = put-IsWithin s e h f
step-IsWithin s (gets a key now) h f = get-IsWithin s a key now h
step-IsWithin s (deletes a) h f = delete_namespace-IsWithin s a h

run_from : (s : ShortTermStore) (cs : List Call) → IsWithin s → All Fits cs → IsWithin (run s cs)
unfolding run
run_from s [] h f = h
run_from s (c ∷ cs) h f = run_from (step s c) cs (step-IsWithin s c h f.0) f.1

-- After any calls of `put`, `get` and `delete_namespace` on a new store, where each entry put is
-- no larger than the system budget, the total is the sum of the sizes of the stored entries and at most
-- the budget, the agents are distinct, and no agent has more entries than allowed.
pub run-IsWithin : (cs : List Call) → All Fits cs → IsWithin (run new cs)
run-IsWithin cs f = run_from new cs new-IsWithin f
