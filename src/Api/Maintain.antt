-- ===== src/Api/Maintain.antt =====
-- lib.rs and lifecycle.rs: `list_all`, the rebuild of the search index, its report, `maintain`.
pub mod Effects
pub mod Ordered
pub mod Deletions
pub mod Applied
use tree_ring_memory.Prelude.{
  ℕ, String, Bool, true, false, not, ◌&&◌, ◌||◌, Option, none, some, List, [], ◌∷◌, map, ltb,
  if◌then◌else◌, is_some, is_none, length, filter, any, is_empty, ◌>>=◌, ◌>>◌, Result, ok, err,
}
use Prim.Native.String.{compare}
use text.Mathlib.Text.{is_lt}
use tree_ring_memory.Event.{MemoryEvent}
use tree_ring_memory.Externals.{Externals}
use tree_ring_memory.Store.{Store, FtsRow, rows_of, fts_row, fts_of}
use tree_ring_memory.Store.Write.{redact_in_transaction, event_from_row, delete_in_transaction}
use tree_ring_memory.Policy.{
  WriteContext, AuthorizationOutcome, allowed, authorize_coordinator_action,
}
use tree_ring_memory.Maintenance.{
  MaintenanceRequest, MaintenanceActionType, delete_expired, redact_secret, MaintenanceAction,
  MaintenanceFtsReport, MaintenanceReport, plan_maintenance_at,
}
use tree_ring_memory.Api.{guarded, done}

-- `ORDER BY created_at DESC`; rows of one time stay in the order of the table
unfoldable pub insert_by_created : MemoryEvent → List MemoryEvent → List MemoryEvent
insert_by_created e [] = e ∷ []
insert_by_created e (m ∷ ms) =
    let rest = m ∷ insert_by_created e ms in
    if is_lt (compare e.created_at m.created_at) then rest else e ∷ m ∷ ms

unfoldable pub order_by_created : List MemoryEvent → List MemoryEvent
unfolding insert_by_created
order_by_created [] = []
order_by_created (e ∷ es) = insert_by_created e (order_by_created es)

unfoldable pub is_current : Bool → MemoryEvent → Bool
is_current include_superseded e = include_superseded || is_none e.superseded_by

-- `count(*)` of the left joins of `fts_report_on_connection` whose right side is missing
unfoldable pub missing_rows : List MemoryEvent → List FtsRow → ℕ
unfolding filter
missing_rows memories fts =
    length (filter (λ (e : MemoryEvent). is_empty (fts_of e.id fts)) memories)

unfoldable pub orphan_rows : List MemoryEvent → List FtsRow → ℕ
unfolding filter
orphan_rows memories fts = length (filter (λ (r : FtsRow). is_empty (rows_of r.id memories)) fts)

unfoldable pub fts_report : Store → Bool → MaintenanceFtsReport
unfolding missing_rows orphan_rows
fts_report s repaired = record {
  memory_rows = length s.memories;
  fts_rows = length s.fts;
  missing_fts_rows = missing_rows s.memories s.fts;
  orphan_fts_rows = orphan_rows s.memories s.fts;
  repaired = repaired;
}

unfoldable pub is_redaction : MaintenanceActionType → Bool
is_redaction redact_secret = true
is_redaction _ = false

unfoldable pub is_deletion : MaintenanceActionType → Bool
is_deletion delete_expired = true
is_deletion _ = false

-- `.find(…)`: the first action that is to be applied
unfoldable pub first_target : Bool → Bool → List MaintenanceAction → Option String
unfolding is_redaction is_deletion
first_target apply_redactions apply_expired [] = none
first_target apply_redactions apply_expired (a ∷ as') =
    let rest = first_target apply_redactions apply_expired as' in
    if is_redaction a.action_type && apply_redactions || is_deletion a.action_type && apply_expired
    then some a.memory_id
    else rest

unfoldable pub mark : Bool → MaintenanceAction → MaintenanceAction
mark applied a = if applied then record a { applied = true } else a

-- `maintenance_status`
unfoldable pub maintenance_status : MaintenanceReport → String
maintenance_status r =
    let has_fts_drift = ltb 0 r.fts.missing_fts_rows || ltb 0 r.fts.orphan_fts_rows in
    let has_unapplied_actions = any (λ (a : MaintenanceAction). not a.applied) r.actions in
    if not has_fts_drift && not has_unapplied_actions
    then (if ltb 0 r.applied_action_count || r.fts.repaired then "applied" else "clean")
    else "planned"

unfoldable pub with_status : MaintenanceReport → MaintenanceReport
with_status r = record r { status = maintenance_status r }

module _ (env : Externals) where
  -- `collect_rows` over `event_from_row`
  unfoldable pub collect_rows : List MemoryEvent → Result (List MemoryEvent)
  collect_rows [] = ok []
  collect_rows (row ∷ rows) = do e ← event_from_row env row; es ← collect_rows rows; ok (e ∷ es)

  unfoldable pub list_all : Bool → Store → Result (List MemoryEvent)
  list_all include_superseded s =
      collect_rows (order_by_created (filter (is_current include_superseded) s.memories))

  -- `rebuild_fts_in_transaction`
  unfoldable pub rebuild_fts : Store → Result Store
  rebuild_fts s = do
    events ← collect_rows (order_by_created s.memories)
    ok (record s { fts = map fts_row events })

  -- the first loop over the actions
  unfoldable pub apply_redactions :
      Bool → String → List MaintenanceAction → Store → Result (Store × List MaintenanceAction)
  apply_redactions apply now [] s = ok (s, [])
  apply_redactions apply now (a ∷ rest) s = do
    (s', applied) ←
        (if is_redaction a.action_type && apply
          then redact_in_transaction env s now a.memory_id
          else ok (s, false))
    (s'', done) ← apply_redactions apply now rest s'
    ok (s'', mark applied a ∷ done)

  -- the second loop over the actions
  unfoldable pub apply_deletions :
      Bool → List MaintenanceAction → Store → Store × List MaintenanceAction
  apply_deletions apply [] s = (s, [])
  apply_deletions apply (a ∷ rest) s =
      let step =
        if is_deletion a.action_type && apply
        then delete_in_transaction env s a.memory_id
        else (s, false) in
      let last = apply_deletions apply rest step.0 in (last.0, mark step.1 a ∷ last.1)

  unfoldable pub repair : Bool → Store → Result Store
  unfolding rebuild_fts
  repair true s = rebuild_fts s
  repair false s = ok s

  -- the transaction of `maintain` after its authorization
  unfoldable pub maintain_body :
      MaintenanceRequest → String → MaintenanceReport → Store → Result (Store × MaintenanceReport)
  maintain_body request now report s = do
    (s1, actions) ←
        apply_redactions (not request.dry_run && request.apply_secret_redactions) now report.actions
          s
    let deleted = apply_deletions (not request.dry_run && request.apply_expired) actions s1
    s3 ← repair (not request.dry_run && request.repair_fts) deleted.0
    let report' = record report {
      actions = deleted.1;
      applied_action_count = length (filter (λ (a : MaintenanceAction). a.applied) deleted.1);
      fts = fts_report s3 (not request.dry_run && request.repair_fts);
    }
    ok (s3, with_status report')

  module _ (now : String) (context : WriteContext) where
    -- `if repair_fts || target_memory_id.is_some()`
    unfoldable pub authorize_maintenance :
        Bool → Option String → Store → AuthorizationOutcome × Store
    authorize_maintenance repair_fts target s =
        if repair_fts || is_some target
        then authorize_coordinator_action env now context "maintain" target s
        else (allowed, s)

    -- `maintain` with the plan made from the rows
    unfoldable pub maintain_planned :
        MaintenanceRequest → MaintenanceReport → Store → Store × Result MaintenanceReport
    maintain_planned request report s =
        let apply_expired = not request.dry_run && request.apply_expired in
        let apply_secret_redactions = not request.dry_run && request.apply_secret_redactions in
        let repair_fts = not request.dry_run && request.repair_fts in
        if apply_expired || (apply_secret_redactions || repair_fts)
        then guarded s
            (authorize_maintenance repair_fts
              (first_target apply_secret_redactions apply_expired report.actions) s)
            (maintain_body request now report)
        else (s, ok (with_status (record report { fts = fts_report s false })))

    unfoldable pub maintain_listed :
        MaintenanceRequest
        → ℕ
        → String
        → Store
        → Result (List MemoryEvent)
        → Store × Result MaintenanceReport
    unfolding maintain_planned
    maintain_listed request instant id s (err error) = (s, err error)
    maintain_listed request instant id s (ok events) =
        maintain_planned request (plan_maintenance_at env events request instant id now) s

    unfoldable pub maintain :
        MaintenanceRequest → ℕ → String → Store → Store × Result MaintenanceReport
    unfolding maintain_listed
    maintain request instant id s = maintain_listed request instant id s (list_all true s)
