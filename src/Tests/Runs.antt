-- ===== src/Tests/Runs.antt =====
-- Runs of the operations on the tables.
use tree_ring_memory.Store.Write.{reread_event}
use tree_ring_memory.Prelude.{
  String, ◌≡◌, refl, ◌≢◌, true, false, none, some, List, [], ◌∷◌, ◌==◌, if◌then◌else◌, All,
  contains, is_empty, ok, ◌⊎◌, map, filter, ℕ, ◌+◌, ◌^◌, inl, inr, eqb, Bool-cases,
}
use tree_ring_memory.Event.Score.{
  F64, nonneg, negative, nan, pos_inf, neg_inf, half, in_unit, is_finite, le, one_units,
}
use tree_ring_memory.Externals.{Externals}
use tree_ring_memory.Event.{MemoryEvent}
use tree_ring_memory.Store.{Store, find_memory}
use tree_ring_memory.Store.Write.{is_sanitized_redaction}
use tree_ring_memory.Maintenance.{
  default_request, MaintenanceReport, MaintenanceRequest, delete_expired, medium, MaintenanceAction,
  no_fts_report, plan_maintenance_at,
}
use tree_ring_memory.Api.{put, created, existing, get, put_idempotent, delete, redact}
use tree_ring_memory.Api.Batch.{plan_import}
use tree_ring_memory.Api.Maintain.{maintain, fts_report, order_by_created, is_current, is_deletion}
use tree_ring_memory.Api.Maintain.Applied.{maintain_deletes}
use tree_ring_memory.Api.Maintain.Deletions.{key}
use tree_ring_memory.Api.Maintain.Effects.{no_drift, maintain_dry_run, IsPlanned}
use tree_ring_memory.Api.History.{
  migrated, Operation, call_put, call_delete, call_redact, call_maintain, call_enable, run,
  history-IsConsistent, history-get,
}
use tree_ring_memory.Api.Imports.{plan_import-IsImportPlan, IsImportPlan}
use tree_ring_memory.Api.Roundtrips.{get-delete, get-put}
use tree_ring_memory.Api.Redaction.{get-redact, tombstone_refuses}
use tree_ring_memory.Api.Idempotent.{put_idempotent-twice}
use tree_ring_memory.Api.Invariant.Steps.{IsConsistent}
use tree_ring_memory.Tests.Data.{note, env, worker}
use tree_ring_memory.Tests.Program.{program}

-- The new database, the database after `note` was put there, and after it was redacted.
abbrev empty : Store
empty = migrated "t0"

abbrev stored : Store
stored = (put env "t1" worker note empty).0

abbrev sealed : Store
sealed = (redact env "t2" worker "mem_1" stored).0

abbrev calls : List Operation
calls =
    call_put "t1" worker note
    ∷ call_redact "t2" worker "mem_1"
    ∷ call_put "t3" worker note
    ∷ call_enable "t4" worker none "cap"
    ∷ call_delete "t5" worker "mem_1"
    ∷ call_maintain "t6" worker default_request 4 "maint_1"
    ∷ []

empty-IsConsistent : IsConsistent env empty
unfolding program
empty-IsConsistent = history-IsConsistent env "t0" []

stored-IsConsistent : IsConsistent env stored
unfolding program
stored-IsConsistent = history-IsConsistent env "t0" (call_put "t1" worker note ∷ [])

history-IsConsistent_example : IsConsistent env (run env calls (migrated "t0"))
history-IsConsistent_example = history-IsConsistent env "t0" calls

history-get_example :
    get env (run env calls (migrated "t0")) "mem_1"
    ≡ ok (find_memory "mem_1" (run env calls (migrated "t0")).memories)
history-get_example = history-get env "t0" calls "mem_1"

-- The double after 0.5.
abbrev above_half : ℕ
above_half = 2 ^ 1073 + 2 ^ 1021

-- A parser that reads one double back as its neighbour.
abbrev neighbour : F64 → F64
neighbour (nonneg n) = if eqb n above_half then half else nonneg n
neighbour value = value

neighbour-in_unit : (x : F64) → in_unit x ≡ true → in_unit (neighbour x) ≡ true
neighbour-in_unit (nonneg n) h = elim (Bool-cases (eqb n above_half)) [
  | inl same ↦ rw same (unfold in_unit is_finite le one_units half in refl)
  | inr other ↦ rw other h
]
neighbour-in_unit (negative n) h = h
neighbour-in_unit nan h = h
neighbour-in_unit pos_inf h = h
neighbour-in_unit neg_inf h = h

abbrev drifting : Externals
drifting = record env { reread = neighbour; reread_in_unit = neighbour-in_unit }

abbrev scored : MemoryEvent
scored = record note { salience = nonneg above_half }

-- The event is put with a salience next to 0.5, and its row has 0.5.
put-scored :
    put drifting "t1" worker scored empty ≡ ((put drifting "t1" worker scored empty).0, ok tt)
unfolding program
put-scored = refl

none-IsConsistent : IsConsistent drifting empty
unfolding program
none-IsConsistent = history-IsConsistent drifting "t0" []

get-put_example : get drifting (put drifting "t1" worker scored empty).0 "mem_1" ≡ (
    if scored.id == "mem_1"
    then ok (some (reread_event drifting scored))
    else get drifting empty "mem_1")
get-put_example =
    get-put drifting "t1" worker scored empty (put drifting "t1" worker scored empty).0
      none-IsConsistent put-scored "mem_1"

reread-scored : (reread_event drifting scored).salience ≡ half
unfolding program
reread-scored = refl

deleted : delete env "t2" worker "mem_1" stored ≡ ((delete env "t2" worker "mem_1" stored).0, ok tt)
unfolding program
deleted = refl

get-delete_example :
    ((other : String)
      → get env (delete env "t2" worker "mem_1" stored).0 other
        ≡ (if "mem_1" == other then ok none else get env stored other))
    × (contains (delete env "t2" worker "mem_1" stored).0.tombstones "mem_1" ≡ false)
get-delete_example =
    get-delete env "t2" worker "mem_1" stored (delete env "t2" worker "mem_1" stored).0
      stored-IsConsistent deleted

got_note : get env stored "mem_1" ≡ ok (some note)
unfolding program
got_note = refl

redacted_note : redact env "t2" worker "mem_1" stored ≡ (sealed, ok tt)
unfolding program
redacted_note = refl

get-redact_example :
    (e' : MemoryEvent) × ((other : String)
      → get env sealed other ≡ (if "mem_1" == other then ok (some e') else get env stored other))
    × (is_sanitized_redaction e' ≡ true)
    × (e'.id ≡ "mem_1")
    × (e'.ring ≡ note.ring)
    × (contains sealed.tombstones "mem_1" ≡ true)
get-redact_example =
    get-redact env "t2" worker "mem_1" note stored sealed stored-IsConsistent got_note redacted_note

is_sealed : contains sealed.tombstones "mem_1" ≡ true
unfolding program
is_sealed = refl

note_is_raw : is_sanitized_redaction note ≡ false
unfolding program
note_is_raw = refl

tombstone_refuses_example : put env "t3" worker note sealed ≢ (sealed, ok tt)
tombstone_refuses_example =
    tombstone_refuses env "t3" worker note sealed sealed is_sealed note_is_raw

put_creates :
    put_idempotent env "t1" worker note empty
    ≡ ((put_idempotent env "t1" worker note empty).0, ok created)
unfolding program
put_creates = refl

put_idempotent-twice_example :
    put_idempotent env "t5" worker note (put_idempotent env "t1" worker note empty).0
    ≡ ((put_idempotent env "t1" worker note empty).0, ok (existing note))
put_idempotent-twice_example =
    put_idempotent-twice env "t1" worker note "op" empty
      (put_idempotent env "t1" worker note empty).0 empty-IsConsistent refl put_creates "t5" worker

plan_import-IsImportPlan_example :
    IsImportPlan false stored []
      (note ∷ record note { id = "mem_2" } ∷ [])
      (plan_import false stored [] (note ∷ record note { id = "mem_2" } ∷ []))
plan_import-IsImportPlan_example =
    plan_import-IsImportPlan false stored [] (note ∷ record note { id = "mem_2" } ∷ [])

no_drift_example :
    ((fts_report stored false).missing_fts_rows ≡ 0)
    × ((fts_report stored false).orphan_fts_rows ≡ 0)
no_drift_example = no_drift env stored false stored-IsConsistent

maintain_dry_run_example :
    (report : MaintenanceReport) × (maintain env "t6" worker default_request 4 "maint_1" stored
      ≡ (stored, ok report))
    × All IsPlanned report.actions
    × (report.applied_action_count ≡ 0)
    × (report.status ≡ (if is_empty report.actions then "clean" else "planned"))
maintain_dry_run_example =
    maintain_dry_run env "t6" worker default_request 4 "maint_1" stored stored-IsConsistent refl

abbrev deleting : MaintenanceRequest
deleting = record default_request { dry_run = false; apply_expired = true }

abbrev cleaned : Store
cleaned = (maintain env "t6" worker deleting 4 "maint_1" stored).0

abbrev applied_report : MaintenanceReport
applied_report = record {
  id = "maint_1";
  generated_at = "t6";
  memory_count = 1;
  planned_action_count = 1;
  applied_action_count = 1;
  dry_run = false;
  status = "applied";
  actions =
      record {
        action_type = delete_expired;
        memory_id = "mem_1";
        severity = medium;
        reason = "Expired memory with temporary retention is eligible for deletion.";
        applied = true;
      }
      ∷ [];
  fts = no_fts_report;
}

maintained : maintain env "t6" worker deleting 4 "maint_1" stored ≡ (cleaned, ok applied_report)
unfolding program
maintained = refl

maintain_deletes_example :
    (map key applied_report.actions
      ≡ map key
          (plan_maintenance_at env
            (order_by_created (filter (is_current true) stored.memories))
            deleting
            4
            "maint_1"
            "t6").actions)
    × All
        (λ (a : MaintenanceAction).
          (is_deletion a.action_type ≡ false) ⊎ (get env cleaned a.memory_id ≡ ok none))
        applied_report.actions
maintain_deletes_example =
    maintain_deletes env "t6" worker deleting 4 "maint_1" stored cleaned applied_report
      stored-IsConsistent refl refl maintained
