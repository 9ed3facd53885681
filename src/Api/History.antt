-- ===== src/Api/History.antt =====
-- A database over its life: the tables that the migration of a new file leaves, and the
-- operations that processes commit on them one after the other.
use tree_ring_memory.Prelude.{
  ℕ, String, ◌≡◌, refl, Bool, Option, none, List, [], ◌∷◌, arith, filter, ok,
}
use tree_ring_memory.Event.{MemoryEvent}
use tree_ring_memory.Externals.{Externals}
use tree_ring_memory.Store.{Store, unrestricted, rows_of, find_memory, fts_of}
use tree_ring_memory.Policy.{WriteContext}
use tree_ring_memory.Maintenance.{MaintenanceRequest}
use tree_ring_memory.Api.{put, get, put_idempotent, supersede, delete, redact, change_ring}
use tree_ring_memory.Api.Admin.{
  enable_coordinated_policy, rotate_coordinator_capability, disable_coordinated_policy,
}
use tree_ring_memory.Api.Batch.{import_events, put_many_with_dox_guard}
use tree_ring_memory.Api.Maintain.{maintain}
use tree_ring_memory.Api.Invariant.Rows.{select-find}
use tree_ring_memory.Api.Invariant.Steps.{IsConsistent}
use tree_ring_memory.Api.Invariant.Single.{
  put_operation-IsConsistent, idempotent-IsConsistent, supersede_operation-IsConsistent,
  delete_operation-IsConsistent, redact_operation-IsConsistent, ring-IsConsistent,
}
use tree_ring_memory.Api.Invariant.Many.{many-IsConsistent, import-IsConsistent}
use tree_ring_memory.Api.Invariant.Policies.{
  same-IsConsistent, enable-SameMemories, rotate-SameMemories, disable-SameMemories,
}
use tree_ring_memory.Consolidation.{ConsolidationRequest}
use tree_ring_memory.Api.Consolidate.{consolidate}
use tree_ring_memory.Api.Invariant.Consolidated.{consolidate-IsConsistent}
use tree_ring_memory.Api.Invariant.Maintained.{maintain-IsConsistent}

-- What `migrate` and `create_policy_schema` leave in a new file.
unfoldable pub migrated : String → Store
migrated now = record {
  memories = [];
  fts = [];
  claims = [];
  tombstones = [];
  policy = record {
    mode = unrestricted;
    capability_hash = none;
    coordinator_label = none;
    enabled_at = none;
    updated_at = now;
  };
  authorization_audit = [];
  consolidations = [];
}

-- A call of an operation that writes, with its arguments; the time is what `now_iso` returned.
pub data Operation : Type 0 where
  call_put call_put_idempotent : String → WriteContext → MemoryEvent → Operation
  call_put_many : String → WriteContext → List MemoryEvent → Option Bool → Operation
  call_supersede : String → WriteContext → String → String → Operation
  call_delete call_redact : String → WriteContext → String → Operation
  call_change_ring : String → WriteContext → String → String → String → Operation
  call_import : String → WriteContext → List MemoryEvent → Bool → Bool → Operation
  call_maintain : String → WriteContext → MaintenanceRequest → ℕ → String → Operation
  call_enable call_rotate : String → WriteContext → Option String → String → Operation
  call_disable : String → WriteContext → Operation
  call_consolidate :
      String → WriteContext → (ℕ → String × String) → String → ℕ → ConsolidationRequest → Operation

module _ (env : Externals) where
  -- The tables after a call, whether it succeeds or fails.
  unfoldable pub commit : Operation → Store → Store
  commit (call_put now c e) s = (put env now c e s).0
  commit (call_put_idempotent now c e) s = (put_idempotent env now c e s).0
  commit (call_put_many now c es guard) s = (put_many_with_dox_guard env now c es guard s).0
  commit (call_supersede now c old_id new_id) s = (supersede env now c old_id new_id s).0
  commit (call_delete now c id) s = (delete env now c id s).0
  commit (call_redact now c id) s = (redact env now c id s).0
  commit (call_change_ring now c id ring event_type) s =
      (change_ring env now c id ring event_type s).0
  commit (call_import now c es dry replace) s = (import_events env now c es dry replace s).0
  commit (call_maintain now c request instant id) s = (maintain env now c request instant id s).0
  commit (call_enable now c label capability) s =
      (enable_coordinated_policy env now c label capability s).0
  commit (call_rotate now c label capability) s =
      (rotate_coordinator_capability env now c label capability s).0
  commit (call_disable now c) s = (disable_coordinated_policy env now c s).0
  commit (call_consolidate now c made id instant request) s =
      (consolidate env now c made id instant request s).0

  unfoldable pub run : List Operation → Store → Store
  run [] s = s
  run (o ∷ os) s = run os (commit o s)

  migrated-IsConsistent : (now : String) → IsConsistent env (migrated now)
  unfolding migrated find_memory rows_of fts_of filter
  migrated-IsConsistent now = record {
    unique = λ id. omega arith;
    synced = λ id. refl;
    rows = λ id e h. cc;
  }

  pub commit-IsConsistent :
      (o : Operation) (s : Store) → IsConsistent env s → IsConsistent env (commit o s)
  unfolding commit
  commit-IsConsistent (call_put now k e) s c = put_operation-IsConsistent env now k e s c
  commit-IsConsistent (call_put_idempotent now k e) s c = idempotent-IsConsistent env now k e s c
  commit-IsConsistent (call_put_many now k es guard) s c = many-IsConsistent env now k es guard s c
  commit-IsConsistent (call_supersede now k old_id new_id) s c =
      supersede_operation-IsConsistent env now k old_id new_id s c
  commit-IsConsistent (call_delete now k id) s c = delete_operation-IsConsistent env now k id s c
  commit-IsConsistent (call_redact now k id) s c = redact_operation-IsConsistent env now k id s c
  commit-IsConsistent (call_change_ring now k id ring event_type) s c =
      ring-IsConsistent env now k id ring event_type s c
  commit-IsConsistent (call_import now k es dry replace) s c =
      import-IsConsistent env now k es dry replace s c
  commit-IsConsistent (call_maintain now k request instant id) s c =
      maintain-IsConsistent env now k request instant id s c
  commit-IsConsistent (call_enable now k label capability) s c =
      same-IsConsistent env (enable-SameMemories env now k label capability s) c
  commit-IsConsistent (call_rotate now k label capability) s c =
      same-IsConsistent env (rotate-SameMemories env now k label capability s) c
  commit-IsConsistent (call_disable now k) s c =
      same-IsConsistent env (disable-SameMemories env now k s) c
  commit-IsConsistent (call_consolidate now k made id instant request) s c =
      consolidate-IsConsistent env now k made id instant request s c

  pub run-IsConsistent :
      (os : List Operation) (s : Store) → IsConsistent env s → IsConsistent env (run os s)
  unfolding run
  run-IsConsistent [] s c = c
  run-IsConsistent (o ∷ os) s c = run-IsConsistent os (commit o s) (commit-IsConsistent o s c)

  -- Whatever operations of `Operation` are called on a new database, in whatever order and with
  -- whatever arguments, contexts and results: its ids are unique, the search index has exactly the
  -- entry of each row, and each row passes `validate`, holds no text that looks like a secret, and
  -- holds nothing that redaction removes if its id is tombstoned.
  pub history-IsConsistent :
      (now : String) (os : List Operation) → IsConsistent env (run os (migrated now))
  history-IsConsistent now os = run-IsConsistent os (migrated now) (migrated-IsConsistent now)

  -- Whatever operations of `Operation` were called on a new database, `get` succeeds for every id
  -- and returns the row of that id as it stands in the tables.
  pub history-get :
      (now : String) (os : List Operation) (id : String)
      → get env (run os (migrated now)) id ≡ ok (find_memory id (run os (migrated now)).memories)
  unfolding get
  history-get now os id = select-find env (run os (migrated now)) id (history-IsConsistent now os)
