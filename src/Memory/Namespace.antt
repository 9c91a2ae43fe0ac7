-- ===== src/Memory/Namespace.antt =====
-- The namespaces and their registry, of crates/ughi-memory/src/namespace.rs.
use ughi.Prelude.{ℕ, ◌+◌, String, Option, none, some, List, [], u64, length}
use ughi.Prelude.Dict
use ughi.Prelude.Dict.{Dict, values}

pub record Namespace : Type 0 where
  pub agent_id : String
  pub created_at : ℕ
  pub short_term_entries : ℕ
  pub long_term_entries : ℕ
  pub short_term_bytes : ℕ
  pub long_term_bytes : ℕ
  pub total_queries : ℕ
  pub promotions : ℕ

unfoldable pub new : String → ℕ → Namespace
new agent_id now = record {
  agent_id = agent_id;
  created_at = now;
  short_term_entries = 0;
  long_term_entries = 0;
  short_term_bytes = 0;
  long_term_bytes = 0;
  total_queries = 0;
  promotions = 0;
}

unfoldable pub total_entries : Namespace → ℕ
total_entries n = u64 (n.short_term_entries + n.long_term_entries)

unfoldable pub total_bytes : Namespace → ℕ
total_bytes n = u64 (n.short_term_bytes + n.long_term_bytes)

pub record NamespaceRegistry : Type 0 where
  pub namespaces : Dict Namespace

unfoldable pub empty_registry : NamespaceRegistry
empty_registry = record { namespaces = [] }

-- `ensure`, and what the caller writes through the reference that it gives.
unfoldable pub ensure : NamespaceRegistry → String → ℕ → NamespaceRegistry
ensure r agent_id now = elim (Dict.lookup agent_id r.namespaces) [
  | some n ↦ r
  | none ↦ record { namespaces = Dict.insert agent_id (new agent_id now) r.namespaces }
]

unfoldable pub ensure_with :
    NamespaceRegistry → String → ℕ → (Namespace → Namespace) → NamespaceRegistry
ensure_with r agent_id now f = record {
  namespaces = Dict.adjust agent_id f (ensure r agent_id now).namespaces;
}

unfoldable pub get : NamespaceRegistry → String → Option Namespace
get r agent_id = Dict.lookup agent_id r.namespaces

unfoldable pub remove : NamespaceRegistry → String → NamespaceRegistry
remove r agent_id = record { namespaces = Dict.remove agent_id r.namespaces }

unfoldable pub all : NamespaceRegistry → List Namespace
all r = values r.namespaces

unfoldable pub registered : NamespaceRegistry → ℕ
registered r = length r.namespaces
