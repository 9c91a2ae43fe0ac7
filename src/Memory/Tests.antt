-- ===== src/Memory/Tests.antt =====
-- The memory on concrete calls.
use ughi.Prelude.{
  ◌+◌, ◌≡◌, ◌≤◌, ◌<◌, refl, some, List, [], ◌∷◌, arith, length, ok, err, byte_length, All,
}
use ughi.Prelude.Dict
use ughi.Memory.Types.{MemoryEntry, touch, estimated_bytes, long_term, key_not_found}
use ughi.Memory.ShortTerm
use ughi.Memory.ShortTerm.{ShortTermStore, as_short_term, put, get, get_promotable}
use ughi.Memory.ShortTerm.Runs.{Call, puts, gets, deletes, run, Fits, IsWithin, run-IsWithin}
use ughi.Memory.ShortTerm.Reads.{get-put, put_isolates}
use ughi.Memory.Namespace
use ughi.Memory.MemoryStore.{MemoryStore, LongTerm, promote}
use ughi.Memory.MemoryStore.Tiers.{promotable, stored, counted_twice, promote-promote}

abbrev task : MemoryEntry
task = record {
  agent_id = "a1";
  key = "task";
  value = "1";
  embedding = some (0 ∷ 0 ∷ []);
  created_at = 10;
  last_accessed = 10;
  access_count = 4;
  tier = long_term;
}

abbrev calls : List Call
calls = puts task ∷ gets "a1" "task" 20 ∷ puts task ∷ deletes "a2" ∷ []

calls_fit : All Fits calls
unfolding estimated_bytes byte_length
calls_fit = (omega arith, (tt, (omega arith, (tt, tt))))

run-IsWithin_example : IsWithin (run ShortTerm.new calls)
run-IsWithin_example = run-IsWithin calls calls_fit

get-put_example :
    (get (put ShortTerm.new task) "a1" "task" 30).1 ≡ ok (touch 30 (as_short_term task))
get-put_example = get-put ShortTerm.new task 30

-- Another agent keeps its entry.
abbrev held : ShortTermStore
held = record { entries = ("a2", task ∷ []) ∷ []; total_bytes = 79; max_entries_per_agent = 500 }

task_fits : held.total_bytes + estimated_bytes task ≤ ShortTerm.system_budget_bytes
unfolding estimated_bytes byte_length
task_fits = omega arith

put_isolates_example : Dict.lookup "a2" (put held task).entries ≡ Dict.lookup "a2" held.entries
put_isolates_example = put_isolates held task "a2" task_fits refl

-- A tier that keeps its entries in a list.
abbrev kept_list : LongTerm (List MemoryEntry)
kept_list = record {
  long_put = λ l e. (e ∷ l, ok tt);
  long_get = λ l a k now. (l, err (key_not_found k));
  long_prune = λ l now. (l, ok 0);
  long_delete = λ l a. ([], ok tt);
  long_entries = λ l. ok (length l);
  long_bytes = λ l. ok 0;
  long_usage = λ l a. ok 0;
}

abbrev two_tiers : MemoryStore (List MemoryEntry)
two_tiers = record {
  short = record {
    entries = ("a1", task ∷ []) ∷ [];
    total_bytes = 79;
    max_entries_per_agent = 500;
  };
  long = [];
  registry = record { namespaces = ("a1", Namespace.new "a1" 0) ∷ [] };
}

a1_known : Namespace.get two_tiers.registry "a1" ≡ some (Namespace.new "a1" 0)
unfolding Namespace.get Dict.lookup
a1_known = refl

one_promotable : 0 < length (promotable two_tiers.short "a1")
unfolding Dict.lookup
one_promotable = omega arith

promote-promote_example :
    ((promote kept_list two_tiers "a1" 70).1 ≡ ok (length (promotable two_tiers.short "a1")))
    × ((promote kept_list (promote kept_list two_tiers "a1" 70).0 "a1" 80).1
        ≡ ok (length (promotable two_tiers.short "a1")))
    × ((promote kept_list (promote kept_list two_tiers "a1" 70).0 "a1" 80).0.long
        ≡ stored kept_list
            (stored kept_list two_tiers.long (promotable two_tiers.short "a1"))
            (promotable two_tiers.short "a1"))
    × ((promote kept_list (promote kept_list two_tiers "a1" 70).0 "a1" 80).0.short
        ≡ two_tiers.short)
    × (Namespace.get
          (promote kept_list (promote kept_list two_tiers "a1" 70).0 "a1" 80).0.registry
          "a1"
        ≡ some (counted_twice (length (promotable two_tiers.short "a1")) (Namespace.new "a1" 0)))
promote-promote_example =
    promote-promote kept_list two_tiers "a1" (Namespace.new "a1" 0) 70 80 (λ l e. refl) a1_known
      one_promotable
