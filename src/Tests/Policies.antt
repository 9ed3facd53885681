-- ===== src/Tests/Policies.antt =====
-- Runs in the coordinated mode.
use tree_ring_memory.Prelude.{
  String, ◌≡◌, refl, ◌↔◌, ◌⊎◌, inl, Bool, true, false, none, some, List, [], ◌∷◌, All,
  TreeRingError, ok, err, ℕ,
}
use tree_ring_memory.Event.{MemoryEvent}
use tree_ring_memory.Store.{coordinated, Store}
use tree_ring_memory.Portability.{normalize_import_events}
use tree_ring_memory.Policy.{
  PolicyGrant, WriteContext, allowed, constant_time_eq, policy_status, protected_target,
  coordinator_capability_hash, new_context, authorize_coordinator_action,
}
use tree_ring_memory.Policy.Capability.{constant_time_eq_iff}
use tree_ring_memory.Policy.Decisions.{protected_target_iff, IsOwnCreation, Distinct}
use tree_ring_memory.Api.{put, settle, supersede, delete, redact}
use tree_ring_memory.Api.Admin.{enable_coordinated_policy, disable_coordinated_policy}
use tree_ring_memory.Api.Batch.{import_events, write_body, put_many_with_dox_guard}
use tree_ring_memory.Api.History.{
  migrated, Operation, call_put, call_delete, call_redact, call_enable, run, history-IsConsistent,
}
use tree_ring_memory.Api.Denials.{IsRefused, IsUnprivileged, unprivileged-IsRefused}
use tree_ring_memory.Api.Creations.{worker_batch, OwnBatch}
use tree_ring_memory.Api.Grants.{grant_opens}
use tree_ring_memory.Api.Invariant.Steps.{IsConsistent}
use tree_ring_memory.Api.Protection.{IsKept}
use tree_ring_memory.Api.Protection.Workers.{workers-IsKept, IsWorker}
use tree_ring_memory.Api.Frame.Audited.{log-IsLonger, IsLonger}
use tree_ring_memory.Tests.Data.{note, env, worker}
use tree_ring_memory.Tests.Program.{program}

-- A database with one row, before and after the coordinated mode is enabled.
abbrev free_store : Store
free_store = (put env "t1" worker note (migrated "t0")).0

abbrev closed_store : Store
closed_store = (enable_coordinated_policy env "t2" worker none "cap" free_store).0

abbrev grant : PolicyGrant
grant = record { capability = "cap"; status = policy_status closed_store }

abbrev coordinator : WriteContext
coordinator = record {
  actor_profile = some "lead";
  capability_hash = some (coordinator_capability_hash env "cap");
  origin = "test";
}

worker-IsUnprivileged : IsUnprivileged env "t3" worker closed_store
unfolding program
worker-IsUnprivileged = (refl, refl)

unprivileged-IsRefused_example :
    ((id : String) → IsRefused "delete" closed_store (delete env "t3" worker id closed_store))
    × ((id : String) → IsRefused "redact" closed_store (redact env "t3" worker id closed_store))
    × ((old_id new_id : String)
        → IsRefused "supersede" closed_store (supersede env "t3" worker old_id new_id closed_store))
    × ((events : List MemoryEvent) (replace_existing : Bool)
        → ((e : TreeRingError) × (normalize_import_events env events ≡ err e))
          ⊎ IsRefused "import_jsonl" closed_store
              (import_events env "t3" worker events false replace_existing closed_store))
    × IsRefused "policy_disable" closed_store
        (disable_coordinated_policy env "t3" worker closed_store)
unprivileged-IsRefused_example =
    unprivileged-IsRefused env "t3" worker closed_store worker-IsUnprivileged

closed-IsConsistent : IsConsistent env closed_store
unfolding program
closed-IsConsistent =
    history-IsConsistent env "t0"
      (call_put "t1" worker note ∷ call_enable "t2" worker none "cap" ∷ [])

abbrev worker_calls : List Operation
worker_calls =
    call_delete "t3" worker "mem_1"
    ∷ call_put "t4" worker (record note { id = "mem_2"; operation_id = none })
    ∷ call_redact "t5" worker "mem_1"
    ∷ []

worker_calls-IsWorker : All (IsWorker closed_store.policy.capability_hash) worker_calls
unfolding program
worker_calls-IsWorker = (refl, (refl, (refl, tt)))

is_coordinated : closed_store.policy.mode ≡ coordinated
unfolding program
is_coordinated = refl

workers-IsKept_example : IsKept closed_store (run env worker_calls closed_store)
workers-IsKept_example =
    workers-IsKept env worker_calls closed_store closed-IsConsistent is_coordinated
      worker_calls-IsWorker

log-IsLonger_example : IsLonger closed_store (run env worker_calls closed_store)
log-IsLonger_example = log-IsLonger env worker_calls closed_store

worker_batch_example :
    (OwnBatch env "t3" worker closed_store (note ∷ [])
      × (put_many_with_dox_guard env "t3" worker (note ∷ []) none closed_store
          ≡ settle closed_store (write_body env "t3" worker none (note ∷ []) closed_store)))
    ⊎ ((OwnBatch env "t3" worker closed_store (note ∷ []) → ⊥)
        × IsRefused "put_many" closed_store
            (put_many_with_dox_guard env "t3" worker (note ∷ []) none closed_store))
worker_batch_example =
    worker_batch env "t3" worker closed_store (note ∷ []) none worker-IsUnprivileged

enabled : enable_coordinated_policy env "t2" worker none "cap" free_store ≡ (closed_store, ok grant)
unfolding program
enabled = refl

made : new_context env (some "lead") (some "cap") "test" ≡ ok coordinator
unfolding program
made = refl

grant_opens_example :
    ((authorize_coordinator_action env "t4" coordinator "delete" (some "mem_1") closed_store).0
      ≡ allowed)
    ↔ (coordinator_capability_hash env "cap" ≡ coordinator_capability_hash env "cap")
grant_opens_example =
    grant_opens env (λ xs ys. refl) "t2" worker none "cap" free_store closed_store grant
      (inl enabled) (some "lead") "cap" "test" coordinator made "t4" "delete" (some "mem_1")

abbrev left_hash : List ℕ
left_hash = 1 ∷ 2 ∷ []

abbrev right_hash : List ℕ
right_hash = 1 ∷ 3 ∷ []

constant_time_eq_iff_example :
    (constant_time_eq left_hash right_hash ≡ true) ↔ (left_hash ≡ right_hash)
constant_time_eq_iff_example = constant_time_eq_iff left_hash right_hash refl

protected_target_iff_example :
    (protected_target worker closed_store [] (note ∷ []) ≡ none)
    ↔ (All (IsOwnCreation worker closed_store) (note ∷ []) × Distinct [] (note ∷ []))
protected_target_iff_example = protected_target_iff worker closed_store [] (note ∷ [])
