-- ===== src/Store.antt =====
-- crates/tree-ring-memory-sqlite/src: the tables of the database as one value, and the queries
-- on them. A row of `memories` is the event that its raw_json column encodes; its other columns
-- are that event's fields, which is how every statement of the program writes them.
pub mod Tables
pub mod Write
use tree_ring_memory.Prelude.{
  ℕ, String, Bool, true, not, ◌&&◌, Option, none, some, List, [], ◌∷◌, ◌++◌, ◌==◌, if◌then◌else◌,
  is_some, option_eq, filter, head?, join,
}
use tree_ring_memory.Event.{MemoryEvent}

-- A row of the virtual table `memory_fts`.
pub record FtsRow : Type 0 where
  pub id : String
  pub summary : String
  pub details : String
  pub tags : String
  pub source_ref : String

-- A row of `operation_claims`.
pub record Claim : Type 0 where
  pub namespace_hash : List ℕ
  pub memory_id : String

pub data PolicyMode : Type 0 where
  -- `PolicyMode::Open`
  unrestricted : PolicyMode
  coordinated : PolicyMode

-- The row of `store_policy`.
pub record PolicyRow : Type 0 where
  pub mode : PolicyMode
  pub capability_hash : Option (List ℕ)
  pub coordinator_label : Option String
  pub enabled_at : Option String
  pub updated_at : String

-- A row of `authorization_audit`, without its number.
pub record AuditRow : Type 0 where
  pub created_at : String
  pub action : String
  pub decision : String
  pub reason : String
  pub actor_profile : Option String
  pub origin : String
  pub target_memory_id : Option String

-- A row of `consolidations`.
pub record ConsolidationRow : Type 0 where
  pub id : String
  pub created_at : String
  pub period_type : String
  pub period_key : String
  pub source_memory_ids : List String
  pub output_memory_ids : List String
  pub status : String
  pub notes : String

pub record Store : Type 0 where
  pub memories : List MemoryEvent
  pub fts : List FtsRow
  pub claims : List Claim
  pub tombstones : List String
  pub policy : PolicyRow
  pub authorization_audit : List AuditRow
  pub consolidations : List ConsolidationRow

-- The rows of `memories` with an id.
unfoldable pub rows_of : String → List MemoryEvent → List MemoryEvent
unfolding filter
rows_of id = filter (λ (e : MemoryEvent). e.id == id)

-- `SELECT raw_json FROM memories WHERE id = ?`
unfoldable pub find_memory : String → List MemoryEvent → Option MemoryEvent
unfolding rows_of
find_memory id memories = head? (rows_of id memories)

-- `SELECT EXISTS(SELECT 1 FROM memories WHERE id = ?)`
unfoldable pub exists_memory : String → List MemoryEvent → Bool
unfolding find_memory
exists_memory id memories = is_some (find_memory id memories)

-- The write to `memories` of UPSERT_MEMORY_SQL: the rows with the id are replaced where they
-- stand, or the row is added.
unfoldable pub replace_rows : MemoryEvent → List MemoryEvent → List MemoryEvent
replace_rows e [] = []
replace_rows e (m ∷ ms) = (if m.id == e.id then e else m) ∷ replace_rows e ms

unfoldable pub upsert : MemoryEvent → List MemoryEvent → List MemoryEvent
unfolding replace_rows exists_memory
upsert e memories =
    if exists_memory e.id memories then replace_rows e memories else memories ++ e ∷ []

-- `DELETE FROM memories WHERE id = ?`
unfoldable pub delete_rows : String → List MemoryEvent → List MemoryEvent
unfolding filter
delete_rows id = filter (λ (e : MemoryEvent). not (e.id == id))

unfoldable pub fts_row : MemoryEvent → FtsRow
fts_row e = record {
  id = e.id;
  summary = e.summary;
  details = e.details;
  tags = join " " e.tags;
  source_ref = e.source.ref_;
}

-- The rows of `memory_fts` with an id.
unfoldable pub fts_of : String → List FtsRow → List FtsRow
unfolding filter
fts_of id = filter (λ (r : FtsRow). r.id == id)

-- `DELETE FROM memory_fts WHERE id = ?`
unfoldable pub delete_fts : String → List FtsRow → List FtsRow
unfolding filter
delete_fts id = filter (λ (r : FtsRow). not (r.id == id))

-- `COALESCE(a, '') = COALESCE(b, '')`
unfoldable pub coalesce_eq : Option String → Option String → Bool
coalesce_eq none none = true
coalesce_eq none (some b) = "" == b
coalesce_eq (some a) none = a == ""
coalesce_eq (some a) (some b) = a == b

-- The operation namespaces of two rows agree, as idx_memories_operation_namespace compares them.
unfoldable pub same_namespace : MemoryEvent → MemoryEvent → Bool
unfolding coalesce_eq
same_namespace a b =
    is_some a.operation_id
    && option_eq a.operation_id b.operation_id
    && coalesce_eq a.project b.project
    && coalesce_eq a.workflow_id b.workflow_id
    && coalesce_eq a.agent_profile b.agent_profile
