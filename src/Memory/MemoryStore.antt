-- ===== src/Memory/MemoryStore.antt =====
-- The facade `MemoryStore` of crates/ughi-memory/src/lib.rs over the two tiers, and what it uses of pruning.rs.
-- The long-term tier is SQLite statements, and here the record of what the facade calls of it; `recall`, on floats, is left out.
use ughi.Prelude.{
  ℕ, ◌+◌, ◌*◌, String, Bool, Option, some, List, [], ◌∷◌, leb, ltb, if◌then◌else◌, Result, Done, ok,
  err, u64, u32,
}
use ughi.Memory.Types.{MemoryEntry, MemoryError, new_short, estimated_bytes, age_ms}
use ughi.Memory.ShortTerm
use ughi.Memory.ShortTerm.{ShortTermStore}
use ughi.Memory.Namespace
use ughi.Memory.Namespace.{Namespace, NamespaceRegistry}
pub mod Tiers

abbrev pub promotion_threshold : ℕ
promotion_threshold = 3

unfoldable pub should_promote : MemoryEntry → Bool
should_promote entry = leb promotion_threshold entry.access_count

unfoldable pub is_expired : ℕ → MemoryEntry → ℕ → Bool
is_expired now entry max_age_ms = ltb max_age_ms (age_ms now entry)

-- The methods of the long-term store.
pub record LongTerm (L : Type 0) : Type 0 where
  pub long_put : L → MemoryEntry → L × Result MemoryError Done
  pub long_get : L → String → String → ℕ → L × Result MemoryError MemoryEntry
  pub long_prune : L → ℕ → L × Result MemoryError ℕ
  pub long_delete : L → String → L × Result MemoryError Done
  pub long_entries : L → Result MemoryError ℕ
  pub long_bytes : L → Result MemoryError ℕ
  pub long_usage : L → String → Result MemoryError ℕ

pub record MemoryStore (L : Type 0) : Type 0 where
  pub short : ShortTermStore
  pub long : L
  pub registry : NamespaceRegistry

pub record MemoryMetrics : Type 0 where
  pub short_term_entries : ℕ
  pub short_term_bytes : ℕ
  pub long_term_entries : ℕ
  pub long_term_bytes : ℕ
  pub agents_with_memory : ℕ
  pub total_queries : ℕ
  pub pruned_entries : ℕ
  pub promotions : ℕ

unfoldable pub count_put : MemoryEntry → Namespace → Namespace
count_put entry ns = record ns {
  short_term_entries = u64 (ns.short_term_entries + 1);
  short_term_bytes = u64 (ns.short_term_bytes + estimated_bytes entry);
}

unfoldable pub count_persist : Namespace → Namespace
count_persist ns = record ns { long_term_entries = u64 (ns.long_term_entries + 1) }

unfoldable pub count_promotions : ℕ → Namespace → Namespace
count_promotions promoted ns = record ns {
  promotions = u64 (ns.promotions + promoted);
  long_term_entries = u64 (ns.long_term_entries + promoted);
}

module _ {L : Type 0} (t : LongTerm L) where
  -- `new`, with the opened database.
  unfoldable pub new : Result MemoryError L → Result MemoryError (MemoryStore L)
  new opened = elim opened [
    | err e ↦ err e
    | ok long ↦
        ok (record { short = ShortTerm.new; long = long; registry = Namespace.empty_registry })
  ]

  unfoldable pub put_entry : MemoryStore L → MemoryEntry → ℕ → MemoryStore L
  put_entry m entry now = record m {
    registry = Namespace.ensure_with m.registry entry.agent_id now (count_put entry);
    short = ShortTerm.put m.short entry;
  }

  unfoldable pub put : MemoryStore L → String → String → String → ℕ → MemoryStore L
  put m agent_id key value now = put_entry m (new_short agent_id key value now) now

  unfoldable pub put_with_embedding :
      MemoryStore L → String → String → String → List ℕ → ℕ → MemoryStore L
  put_with_embedding m agent_id key value embedding now =
      put_entry m (record (new_short agent_id key value now) { embedding = some embedding }) now

  unfoldable pub persist :
      MemoryStore L → String → String → String → ℕ → MemoryStore L × Result MemoryError Done
  persist m agent_id key value now =
      let stored = t.long_put m.long (new_short agent_id key value now) in
      (
        record m {
          registry = Namespace.ensure_with m.registry agent_id now count_persist;
          long = stored.0;
        },
        stored.1,
      )

  unfoldable pub get :
      MemoryStore L → String → String → ℕ → MemoryStore L × Result MemoryError MemoryEntry
  get m agent_id key now =
      let hit = ShortTerm.get m.short agent_id key now in
      let far = t.long_get m.long agent_id key now in
      elim hit.1 [
        | ok entry ↦ (record m { short = hit.0 }, ok entry)
        | err e ↦ (record m { short = hit.0; long = far.0 }, far.1)
      ]

  -- The loop of `promote`: it ends at the first error.
  unfoldable pub promote_all : L → List MemoryEntry → ℕ → L × Result MemoryError ℕ
  promote_all l [] promoted = (l, ok promoted)
  promote_all l (e ∷ es) promoted =
      let stored = t.long_put l e in
      elim stored.1 [ err x ↦ (stored.0, err x) | ok done ↦ promote_all stored.0 es (promoted + 1) ]

  unfoldable pub promote : MemoryStore L → String → ℕ → MemoryStore L × Result MemoryError ℕ
  promote m agent_id now =
      let moved =
        promote_all m.long (ShortTerm.get_promotable m.short agent_id promotion_threshold) 0 in
      elim moved.1 [
        | err x ↦ (record m { long = moved.0 }, err x)
        | ok promoted ↦ (
          record m {
            long = moved.0;
            registry =
                if ltb 0 promoted
                then Namespace.ensure_with m.registry agent_id now (count_promotions promoted)
                else m.registry;
          },
          ok promoted,
        )
      ]

  unfoldable pub prune : MemoryStore L → ℕ → MemoryStore L × Result MemoryError ℕ
  prune m now = let pruned = t.long_prune m.long now in (record m { long = pruned.0 }, pruned.1)

  unfoldable pub delete_agent : MemoryStore L → String → MemoryStore L × Result MemoryError Done
  delete_agent m agent_id =
      let short = ShortTerm.delete_namespace m.short agent_id in
      let gone = t.long_delete m.long agent_id in
      elim gone.1 [
        | err x ↦ (record m { short = short; long = gone.0 }, err x)
        | ok done ↦ (
          record m {
            short = short;
            long = gone.0;
            registry = Namespace.remove m.registry agent_id;
          },
          ok tt,
        )
      ]

  unfoldable pub metrics : MemoryStore L → Result MemoryError MemoryMetrics
  metrics m = elim (t.long_entries m.long) [
    | err x ↦ err x
    | ok entries ↦ elim (t.long_bytes m.long) [
      | err x ↦ err x
      | ok bytes ↦ ok (record {
        short_term_entries = ShortTerm.total_entries m.short;
        short_term_bytes = m.short.total_bytes;
        long_term_entries = entries;
        long_term_bytes = bytes;
        agents_with_memory = u32 (Namespace.registered m.registry);
        total_queries = 0;
        pruned_entries = 0;
        promotions = 0;
      })
    ]
  ]

  unfoldable pub agent_info : MemoryStore L → String → Option Namespace
  agent_info m agent_id = Namespace.get m.registry agent_id

  unfoldable pub usage_bytes : MemoryStore L → String → Result MemoryError ℕ
  usage_bytes m agent_id = elim (t.long_usage m.long agent_id) [
    | err x ↦ err x
    | ok lt ↦ ok (u64 (ShortTerm.agent_bytes m.short agent_id + lt))
  ]

  unfoldable pub check_budget : MemoryStore L → String → Result MemoryError Bool
  check_budget m agent_id = elim (usage_bytes m agent_id) [
    | err x ↦ err x
    | ok total ↦ ok (leb total (20 * 1024 * 1024))
  ]
