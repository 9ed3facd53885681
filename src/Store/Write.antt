-- ===== src/Store/Write.antt =====
-- crates/tree-ring-memory-sqlite/src/write.rs: the steps inside a transaction. A step returns
-- the tables after it, or the error on which the transaction is dropped and rolled back.
pub mod Inversion
use tree_ring_memory.Prelude.{
  ℕ, ◌/◌, ◌%◌, ◌^◌, String, Bool, true, false, not, ◌&&◌, Option, none, some, List, [], ◌∷◌, ◌++◌,
  ◌==◌, if◌then◌else◌, is_none, length, filter, any, contains, bytes_eq, is_empty, as_bytes, ◌>>=◌,
  ◌>>◌, ensure, Result, validation, storage, ok,
}
use tree_ring_memory.Event.{MemoryEvent}
use tree_ring_memory.Event.Redact.{redact}
use tree_ring_memory.Event.Validate.{validate}
use tree_ring_memory.Externals.{Externals}
use tree_ring_memory.Legacy.{normalize_identity}
use tree_ring_memory.Sensitivity.{default_guard, check_or_raise, detect_memory_event_sensitivity}
use tree_ring_memory.Store.{
  Store, Claim, find_memory, exists_memory, replace_rows, upsert, delete_rows, fts_row, delete_fts,
  same_namespace,
}

-- `(n as u64).to_be_bytes()`
unfoldable pub be_bytes64 : ℕ → List ℕ
be_bytes64 n =
    (n / 2 ^ 56 % 256)
    ∷ (n / 2 ^ 48 % 256)
    ∷ (n / 2 ^ 40 % 256)
    ∷ (n / 2 ^ 32 % 256)
    ∷ (n / 2 ^ 24 % 256)
    ∷ (n / 2 ^ 16 % 256)
    ∷ (n / 2 ^ 8 % 256)
    ∷ (n % 256)
    ∷ []

-- What the loop of `operation_namespace_hash` feeds for one value.
unfoldable pub namespace_part : Option String → List ℕ
unfolding be_bytes64
namespace_part none = 0 ∷ []
namespace_part (some value) = 1 ∷ (be_bytes64 (length (as_bytes value)) ++ as_bytes value)

unfoldable pub namespace_bytes : MemoryEvent → String → List ℕ
unfolding namespace_part
namespace_bytes e operation_id =
    as_bytes "tree-ring-operation-namespace-v1"
    ++ (namespace_part e.project
        ++ (namespace_part e.workflow_id
            ++ (namespace_part e.agent_profile ++ namespace_part (some operation_id))))

-- `SELECT EXISTS(SELECT 1 FROM operation_claims WHERE namespace_hash = ?)`
unfoldable pub claimed : List ℕ → List Claim → Bool
unfolding any
claimed hash = any (λ (c : Claim). bytes_eq c.namespace_hash hash)

-- `INSERT OR IGNORE INTO operation_claims`
unfoldable pub add_claim : List ℕ → String → List Claim → List Claim
add_claim hash memory_id claims =
    if claimed hash claims
    then claims
    else claims ++ record { namespace_hash = hash; memory_id = memory_id } ∷ []

unfoldable pub is_sanitized_redaction : MemoryEvent → Bool
is_sanitized_redaction e =
    e.summary == "[REDACTED]"
    && e.details == ""
    && is_none e.project
    && is_none e.agent_profile
    && is_none e.workflow_id
    && is_none e.session_id
    && is_none e.operation_id
    && e.event_type == "redacted"
    && is_empty e.tags
    && e.source.source_type == "manual"
    && e.source.ref_ == ""
    && e.source.quote == ""
    && is_empty e.supersedes
    && is_empty e.links
    && not e.review.needs_review
    && is_none e.review.review_reason
    && is_none e.review.reviewed_at
    && is_none e.review.reviewed_by
    && e.sensitivity == "private"

module _ (env : Externals) where
  unfoldable pub operation_namespace_hash : MemoryEvent → String → List ℕ
  operation_namespace_hash e operation_id = env.sha256 (namespace_bytes e operation_id)

  -- `search::event_from_row`: the row is what its raw_json decodes to
  unfoldable pub event_from_row : MemoryEvent → Result MemoryEvent
  event_from_row row = do (event, _) ← normalize_identity env row; ok event

  unfoldable pub read_row : Option MemoryEvent → Result (Option MemoryEvent)
  unfolding event_from_row
  read_row none = ok none
  read_row (some row) = do event ← event_from_row row; ok (some event)

  -- a query for the row of an id, read back as an event
  unfoldable pub select_event : String → Store → Result (Option MemoryEvent)
  unfolding read_row
  select_event id s = read_row (find_memory id s.memories)

  unfoldable pub validate_memory_for_storage : MemoryEvent → Result (Unit {0})
  validate_memory_for_storage e = do
    _ ← detect_memory_event_sensitivity env default_guard e
    validate e

  unfoldable pub claim_hash : MemoryEvent → Option String → Option (List ℕ)
  claim_hash e none = none
  claim_hash e (some operation_id) = some (operation_namespace_hash e operation_id)

  -- the hash that `ensure_operation_claim_available` looks up, if there is one
  unfoldable pub claim_available : Option (List ℕ) → List Claim → Result (Unit {0})
  claim_available none claims = ok tt
  claim_available (some hash) claims =
      ensure (not (claimed hash claims))
        (validation "operation_id was already used by a redacted memory")

  unfoldable pub ensure_operation_claim_available : Store → MemoryEvent → Result (Unit {0})
  ensure_operation_claim_available s e = claim_available (claim_hash e e.operation_id) s.claims

  -- the comparison of the replaced row's hash with that of the new one
  unfoldable pub preserve_hash : Option (List ℕ) → Option (List ℕ) → String → Store → Store
  preserve_hash none replacement id s = s
  preserve_hash (some hash) none id s = record s { claims = add_claim hash id s.claims }
  preserve_hash (some hash) (some hash') id s =
      if bytes_eq hash' hash then s else record s { claims = add_claim hash id s.claims }

  -- `preserve_replaced_operation_claim`, where there is a row to replace
  unfoldable pub preserve_replaced : Option MemoryEvent → MemoryEvent → Store → Store
  unfolding preserve_hash
  preserve_replaced none e s = s
  preserve_replaced (some existing) e s =
      preserve_hash (claim_hash existing existing.operation_id) (claim_hash e e.operation_id)
        existing.id s

  unfoldable pub prepare_memory_write : Store → MemoryEvent → Result Store
  prepare_memory_write s e = do
    validate_memory_for_storage e
    ensure (not (contains s.tombstones e.id && not (is_sanitized_redaction e)))
        (validation "memory id was redacted and cannot be replaced; hard-delete it before reuse")
    existing ← select_event e.id s
    let s' = preserve_replaced existing e s
    ensure_operation_claim_available s' e
    ok s'

  -- What an event is once its raw_json column has been written and decoded again.
  abbrev pub reread_event : MemoryEvent → MemoryEvent
  reread_event e = record e {
    salience = env.reread e.salience;
    confidence = env.reread e.confidence;
  }

  -- the three statements; the unique index on the operation namespace refuses the first
  unfoldable pub put_with_statements : Store → MemoryEvent → Result Store
  put_with_statements s e = do
    validate e
    ensure (not (any (λ (m : MemoryEvent). not (m.id == e.id) && same_namespace e m) s.memories))
        (storage "UNIQUE constraint failed: index 'idx_memories_operation_namespace'")
    ok (record s {
      memories = upsert (reread_event e) s.memories;
      fts = delete_fts e.id s.fts ++ fts_row e ∷ [];
    })

  unfoldable pub put_in_transaction : Store → MemoryEvent → Result Store
  put_in_transaction s e = do s' ← prepare_memory_write s e; put_with_statements s' e

  -- `INSERT OR IGNORE INTO redaction_tombstones`
  unfoldable pub add_tombstone : String → List String → List String
  add_tombstone id tombstones = if contains tombstones id then tombstones else tombstones ++ id ∷ []

  -- `delete_in_transaction`: the tables, and whether a row was deleted
  unfoldable pub delete_in_transaction : Store → String → Store × Bool
  delete_in_transaction s memory_id = (
    record s {
      memories = delete_rows memory_id s.memories;
      fts = delete_fts memory_id s.fts;
      claims = filter (λ (c : Claim). not (c.memory_id == memory_id)) s.claims;
      tombstones = filter (λ (id : String). not (id == memory_id)) s.tombstones;
    },
    exists_memory memory_id s.memories,
  )

  -- the rest of `redact_in_transaction`, on the row that the query found
  unfoldable pub redact_found : Store → String → Option MemoryEvent → Result (Store × Bool)
  redact_found s now none = ok (s, false)
  redact_found s now (some event) = do
    let event' = record (redact now event) { superseded_by = event.superseded_by }
    s' ← put_in_transaction s event'
    ok (record s' { tombstones = add_tombstone event'.id s'.tombstones }, true)

  unfoldable pub redact_in_transaction : Store → String → String → Result (Store × Bool)
  unfolding redact_found
  redact_in_transaction s now memory_id = do
    found ← select_event memory_id s
    redact_found s now found

  -- the `UPDATE` of `supersede_in_transaction` on the rows with the id
  unfoldable pub supersede_found : Store → String → Option MemoryEvent → Store × Bool
  supersede_found s new_id none = (s, false)
  supersede_found s new_id (some event) = (
    record s {
      memories =
          replace_rows (reread_event (record event { superseded_by = some new_id })) s.memories;
    },
    true,
  )

  unfoldable pub supersede_in_transaction : Store → String → String → Result (Store × Bool)
  unfolding supersede_found
  supersede_in_transaction s old_id new_id = do
    _ ← check_or_raise env default_guard new_id
    found ← select_event old_id s
    ok (supersede_found s new_id found)
