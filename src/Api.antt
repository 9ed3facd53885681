-- ===== src/Api.antt =====
-- crates/tree-ring-memory-sqlite/src/lib.rs: the operations of `SQLiteMemoryStore`. Each runs in
-- one immediate transaction: an error drops it, which leaves the tables as they were, and a
-- denial commits the audit row and then returns the error. Between processes SQLite serialises
-- these transactions, so an operation is a function of the tables.
pub mod Admin
pub mod Batch
pub mod Maintain
pub mod Consolidate
pub mod Denials
pub mod Creations
pub mod Grants
pub mod Outcomes
pub mod Roundtrips
pub mod Redaction
pub mod Idempotent
pub mod Imports
pub mod Protection
pub mod Frame
pub mod History
pub mod Export
pub mod Search
pub mod Recall
pub mod Invariant
use tree_ring_memory.Prelude.{
  ℕ, String, Bool, ◌&&◌, Option, none, some, List, [], ◌∷◌, ◌==◌, if◌then◌else◌, is_some, contains,
  bytes_eq, ◌>>=◌, ◌>>◌, Result, ok, err,
}
use tree_ring_memory.Event.{MemoryEvent}
use tree_ring_memory.Externals.{Externals}
use tree_ring_memory.Store.{Store, Claim, find_memory, exists_memory, same_namespace}
use tree_ring_memory.Store.Write.{
  put_in_transaction, operation_namespace_hash, read_row, select_event, validate_memory_for_storage,
  delete_in_transaction, redact_in_transaction, supersede_in_transaction,
}
use tree_ring_memory.Policy.{
  AuthorizationOutcome, WriteContext, allowed, denied, authorize_coordinator_action,
  authorize_event_creates,
}

pub data PutOutcome : Type 0 where
  created : PutOutcome
  existing : MemoryEvent → PutOutcome

-- The end of a transaction that began with the tables `before`: what its body returns is
-- committed, and at an error the `Transaction` of rusqlite is dropped, which rolls it back. What
-- the body had written before its error is not represented.
unfoldable pub settle {ℓ} : {A : Type ℓ} → Store → Result (Store × A) → Store × Result A
settle before (ok (after, a)) = (after, ok a)
settle before (err e) = (before, err e)

-- `if let Denied(error) = … { transaction.commit()?; return Err(error); }`, and the rest
unfoldable pub guarded {ℓ} :
    {A : Type ℓ}
    → Store
    → AuthorizationOutcome × Store
    → (Store → Result (Store × A))
    → Store × Result A
unfolding settle
guarded before (denied error, audited) body = (audited, err error)
guarded before (allowed, audited) body = settle before (body audited)

-- The row of the first query of `find_memory_by_operation_namespace`.
unfoldable pub find_by_namespace : MemoryEvent → List MemoryEvent → Option MemoryEvent
find_by_namespace e [] = none
find_by_namespace e (m ∷ ms) =
    let rest = find_by_namespace e ms in if same_namespace e m then some m else rest

-- The row of its second query: a claim on the hash, joined with the row of its memory.
unfoldable pub find_by_claim : List ℕ → List Claim → List MemoryEvent → Option MemoryEvent
find_by_claim hash [] memories = none
find_by_claim hash (c ∷ cs) memories =
    let rest = find_by_claim hash cs memories in
    if bytes_eq c.namespace_hash hash && exists_memory c.memory_id memories
    then find_memory c.memory_id memories
    else rest

-- the change that `change_ring` makes to the event
unfoldable pub with_ring : String → Bool → String → String → MemoryEvent → MemoryEvent
with_ring now tombstoned ring event_type e = record e {
  ring = ring;
  event_type = if tombstoned then e.event_type else event_type;
  updated_at = now;
  retention = if ring == "heartwood" then "durable" else e.retention;
}

unfoldable pub done : Store → Store × Unit {0}
done s = (s, tt)

module _ (env : Externals) where
  -- `SQLiteMemoryStore::get`
  unfoldable pub get : Store → String → Result (Option MemoryEvent)
  get s memory_id = select_event env memory_id s

  unfoldable pub find_memory_by_operation_namespace :
      Store → MemoryEvent → String → Result (Option MemoryEvent)
  find_memory_by_operation_namespace s e operation_id =
      let active = find_by_namespace e s.memories in
      let claimant =
        find_by_claim (operation_namespace_hash env e operation_id) s.claims s.memories in
      read_row env (if is_some active then active else claimant)

  module _ (now : String) (context : WriteContext) where
    -- the write of one event, after its authorization
    unfoldable pub put_body : MemoryEvent → Store → Result (Store × Unit {0})
    unfolding done
    put_body e s = do s' ← put_in_transaction env s e; ok (done s')

    unfoldable pub put : MemoryEvent → Store → Store × Result (Unit {0})
    put e s = guarded s (authorize_event_creates env now context "put" (e ∷ []) s) (put_body e)

    unfoldable pub create_body : MemoryEvent → Store → Result (Store × PutOutcome)
    create_body e s = do s' ← put_in_transaction env s e; ok (s', created)

    -- `put_idempotent` after the query for the operation
    unfoldable pub put_unless_found :
        MemoryEvent → Store → Result (Option MemoryEvent) → Store × Result PutOutcome
    put_unless_found e s (err error) = (s, err error)
    put_unless_found e s (ok (some found)) = (s, ok (existing found))
    put_unless_found e s (ok none) =
        guarded s (authorize_event_creates env now context "put_idempotent" (e ∷ []) s)
          (create_body e)

    unfoldable pub as_created : Store × Result (Unit {0}) → Store × Result PutOutcome
    as_created (s, ok _) = (s, ok created)
    as_created (s, err error) = (s, err error)

    unfoldable pub put_operation :
        MemoryEvent → Store → Option String → Result (Unit {0}) → Store × Result PutOutcome
    unfolding put_unless_found as_created
    put_operation e s none checked = as_created (put e s)
    put_operation e s (some operation_id) (err error) = (s, err error)
    put_operation e s (some operation_id) (ok _) =
        put_unless_found e s (find_memory_by_operation_namespace s e operation_id)

    unfoldable pub put_idempotent : MemoryEvent → Store → Store × Result PutOutcome
    put_idempotent e s = put_operation e s e.operation_id (validate_memory_for_storage env e)

    unfoldable pub supersede_body : String → String → Store → Result (Store × Unit {0})
    supersede_body old_id new_id s = do
      (s', _) ← supersede_in_transaction env s old_id new_id
      ok (done s')

    unfoldable pub supersede : String → String → Store → Store × Result (Unit {0})
    supersede old_id new_id s =
        guarded s (authorize_coordinator_action env now context "supersede" (some old_id) s)
          (supersede_body old_id new_id)

    unfoldable pub delete_body : String → Store → Result (Store × Unit {0})
    delete_body memory_id s = ok (done (delete_in_transaction env s memory_id).0)

    unfoldable pub delete : String → Store → Store × Result (Unit {0})
    delete memory_id s =
        guarded s (authorize_coordinator_action env now context "delete" (some memory_id) s)
          (delete_body memory_id)

    unfoldable pub redact_body : String → Store → Result (Store × Unit {0})
    redact_body memory_id s = do (s', _) ← redact_in_transaction env s now memory_id; ok (done s')

    unfoldable pub redact : String → Store → Store × Result (Unit {0})
    redact memory_id s =
        guarded s (authorize_coordinator_action env now context "redact" (some memory_id) s)
          (redact_body memory_id)

    unfoldable pub ring_body :
        String → String → String → MemoryEvent → Store → Result (Store × Option MemoryEvent)
    ring_body memory_id ring event_type event s = do
      let changed = with_ring now (contains s.tombstones memory_id) ring event_type event
      s' ← put_in_transaction env s changed
      ok (s', some changed)

    -- `change_ring` after the query for the row
    unfoldable pub change_found :
        String
        → String
        → String
        → Store
        → Result (Option MemoryEvent)
        → Store × Result (Option MemoryEvent)
    change_found memory_id ring event_type s (err error) = (s, err error)
    change_found memory_id ring event_type s (ok none) = (s, ok none)
    change_found memory_id ring event_type s (ok (some event)) =
        guarded s (authorize_coordinator_action env now context "change_ring" (some memory_id) s)
          (ring_body memory_id ring event_type event)

    unfoldable pub change_ring :
        String → String → String → Store → Store × Result (Option MemoryEvent)
    unfolding change_found
    change_ring memory_id ring event_type s =
        change_found memory_id ring event_type s (select_event env memory_id s)
