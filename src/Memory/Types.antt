-- ===== src/Memory/Types.antt =====
-- The entries of crates/ughi-memory/src/types.rs and the errors of error.rs. A `serde_json::Value`
-- is its JSON text, an `f32` its bits; a text is measured in bytes, and the sizes of what is in memory
-- are far from 2 ^ 64.
use ughi.Prelude.{ℕ, ◌+◌, ◌*◌, ◌-◌, String, Option, none, some, List, length, u32, byte_length}

pub data MemoryTier : Type 0 where
  short_term long_term : MemoryTier

pub record MemoryEntry : Type 0 where
  pub agent_id : String
  pub key : String
  pub value : String
  pub embedding : Option (List ℕ)
  pub created_at : ℕ
  pub last_accessed : ℕ
  pub access_count : ℕ
  pub tier : MemoryTier

unfoldable pub new_short : String → String → String → ℕ → MemoryEntry
new_short agent_id key value now = record {
  agent_id = agent_id;
  key = key;
  value = value;
  embedding = none;
  created_at = now;
  last_accessed = now;
  access_count = 0;
  tier = short_term;
}

unfoldable pub estimated_bytes : MemoryEntry → ℕ
estimated_bytes e =
    let emb_size : ℕ = elim e.embedding [ none ↦ 0 | some v ↦ length v * 4 ] in
    byte_length e.agent_id + byte_length e.key + byte_length e.value + emb_size + 64

unfoldable pub touch : ℕ → MemoryEntry → MemoryEntry
touch now e = record e { last_accessed = now; access_count = u32 (e.access_count + 1) }

unfoldable pub age_ms : ℕ → MemoryEntry → ℕ
age_ms now e = now - e.created_at

unfoldable pub idle_ms : ℕ → MemoryEntry → ℕ
idle_ms now e = now - e.last_accessed

-- The two amounts in MB that some of these carry are floats and are left out.
pub data MemoryError : Type 0 where
  sqlite : String → MemoryError
  budget_exceeded : String → MemoryError
  key_not_found : String → MemoryError
  namespace_not_found : String → MemoryError
  dimension_mismatch : ℕ → ℕ → MemoryError
  short_term_full : MemoryError
  serialization : String → MemoryError
  io : String → MemoryError
