-- ===== src/Fleet/Identity.antt =====
-- The ids and the ports of the instances, over any calls.
use ughi.Prelude.{
  String, ℕ, ◌+◌, ◌≤◌, ◌<◌, ◌≡◌, refl, sym, subst, List, [], ◌∷◌, arith, inl, inr, Bool-cases,
  Option-cases, length, find, any, u64,
}
use ughi.Prelude.Ids.{
  write_id, Below, Distinct, Below-push, Distinct-push, All-write_id, Distinct-write_id,
}
use ughi.Fleet.{
  FleetManager, FleetInstance, new, fresh, local_port, has_id, register_local, clone_instance,
  set_metrics, update_metrics, set_stopped, stop,
}

pub data Call : Type 0 where
  registers : String → Call
  clones : ℕ → String → ℕ → Call
  updates : ℕ → ℕ → ℕ → ℕ → Call
  stops : ℕ → Call

module _ (show : ℕ → String) where
  unfoldable pub step : FleetManager → Call → FleetManager
  step m (registers version) = (register_local show m version).0
  step m (clones source host port) = (clone_instance show m source host port).0
  step m (updates id active total memory_mb) = update_metrics m id active total memory_mb
  step m (stops id) = (stop m id).0

  unfoldable pub run : FleetManager → List Call → FleetManager
  run m [] = m
  run m (c ∷ cs) = run (step m c) cs

abbrev id_of : FleetInstance → ℕ
id_of i = i.id

-- Every instance has an id of its own, already given out.
pub record IsNumbered (m : FleetManager) : Type 0 where
  pub below : Below id_of m.next_id m.instances
  pub distinct : Distinct id_of m.instances

-- The next id moves by one at most.
record Stepped (m v : FleetManager) : Type 0 where
  numbered : IsNumbered v
  next : v.next_id ≤ m.next_id + 1

fresh-Stepped :
    (m : FleetManager) (name host version : String) (port : ℕ)
    → m.next_id + 1 < 18446744073709551616
    → IsNumbered m
    → Stepped m (fresh m name host port version)
unfolding fresh
fresh-Stepped m name host version port b n =
    let same : u64 (m.next_id + 1) ≡ m.next_id + 1 = omega (arith, b) in
    record {
      numbered = record {
        below =
            subst (λ k. Below id_of k (fresh m name host port version).instances) (sym same)
              (Below-push id_of m.next_id m.instances _ refl n.below);
        distinct = Distinct-push id_of m.next_id m.instances _ refl n.below n.distinct;
      };
      next = omega (arith, same);
    }

writes-Stepped :
    (m : FleetManager) (k : ℕ) (f : FleetInstance → FleetInstance)
    → ((i : FleetInstance) → (f i).id ≡ i.id)
    → IsNumbered m
    → Stepped m (record m { instances = write_id (λ i. i.id) k f m.instances })
writes-Stepped m k f s n = record {
  numbered = record {
    below = All-write_id id_of (λ i. i < m.next_id) k f m.instances s n.below;
    distinct = Distinct-write_id id_of k f m.instances s n.distinct;
  };
  next = omega arith;
}

unchanged : (m : FleetManager) → IsNumbered m → Stepped m m
unchanged m n = record { numbered = n; next = omega arith }

step-Stepped :
    (show : ℕ → String) (m : FleetManager) (c : Call)
    → m.next_id + 1 < 18446744073709551616
    → IsNumbered m
    → Stepped m (step show m c)
unfolding step register_local clone_instance update_metrics set_metrics stop set_stopped
step-Stepped show m (registers version) b n = fresh-Stepped m _ _ version _ b n
step-Stepped show m (clones source host port) b n =
    elim (Option-cases (find (has_id source) m.instances)) [
      | inl g ↦ rw (step, clone_instance, g) (unchanged m n)
      | inr (i, g) ↦ rw (step, clone_instance, g) (fresh-Stepped m _ host i.version port b n)
    ]
step-Stepped show m (updates id active total memory_mb) b n =
    writes-Stepped m id (set_metrics active total memory_mb) (λ i. refl) n
step-Stepped show m (stops id) b n = elim (Bool-cases (any (has_id id) m.instances)) [
  | inl e ↦ rw (step, stop, e) (writes-Stepped m id set_stopped (λ i. refl) n)
  | inr e ↦ rw (step, stop, e) (unchanged m n)
]

run_from :
    (show : ℕ → String) (m : FleetManager) (cs : List Call)
    → m.next_id + length cs < 18446744073709551616
    → IsNumbered m
    → IsNumbered (run show m cs)
unfolding run
run_from show m [] b n = n
run_from show m (c ∷ cs) b n =
    let one = step-Stepped show m c (omega arith) n in
    run_from show (step show m c) cs (omega (arith, one.next)) one.numbered

-- After fewer than 2 ^ 64 - 1 calls on a new manager, no two instances have the same id, and each id is below the
-- next one.
pub run-IsNumbered :
    (show : ℕ → String) (cs : List Call)
    → length cs < 18446744073709551615
    → IsNumbered (run show new cs)
unfolding new
run-IsNumbered show cs b = run_from show new cs (omega arith) (record { below = tt; distinct = tt })

-- The ports of local instances: from 8080 up, in the order of the ids, until the port would pass 65535.
pub local_port_lem : (k : ℕ) → 0 < k → k ≤ 57456 → local_port k ≡ 8079 + k
unfolding local_port
local_port_lem k p b = omega arith
