-- ===== src/Api/Frame/Many.antt =====
-- The relation of a frame holds of the operations on many events and of those on the policy.
use tree_ring_memory.Prelude.{
  ℕ, String, ◌≡◌, subst, inl, inr, Bool, true, false, not, ◌&&◌, ◌||◌, Option, List, [], ◌∷◌,
  if◌then◌else◌, Bool-cases, is_some, length, ok-injective, >>=-eq-ok, ◌>>◌, >>-eq-ok, Result, ok,
  err,
}
use tree_ring_memory.Event.{MemoryEvent}
use tree_ring_memory.Externals.{Externals}
use tree_ring_memory.Store.{Store}
use tree_ring_memory.Store.Write.{
  put_in_transaction, prepare_memory_write, put_with_statements, delete_in_transaction,
  redact_in_transaction, supersede_in_transaction,
}
use tree_ring_memory.Portability.{normalize_import_events}
use tree_ring_memory.Policy.{WriteContext}
use tree_ring_memory.Maintenance.{MaintenanceAction, MaintenanceRequest, MaintenanceReport}
use tree_ring_memory.Api.Admin.{commit_either}
use tree_ring_memory.Api.Batch.{
  write_all, plan_import, first_id, import_report, dox_check, put_all, supersede_ids, supersede_all,
  write_body, put_many_with_dox_guard, import_body, import_normalized, import_events,
}
use tree_ring_memory.Api.Maintain.{
  apply_deletions, is_redaction, is_deletion, list_all, apply_redactions, repair, maintain_body,
  authorize_maintenance, maintain_planned, maintain_listed, maintain,
}
use tree_ring_memory.Api.Invariant.Single.{first_eq}
use tree_ring_memory.Api.Invariant.Many.{prepared_write}
use tree_ring_memory.Api.Frame.{IsFrame, action_frame, creates_frame, guarded_frame}

module _ (env : Externals) (R : Store → Store → Type 0) (f : IsFrame env R) where
  writes_frame :
      (guard : Option Bool) (events : List MemoryEvent) (s : Store) {s' : Store}
      → write_all env guard events s ≡ ok s'
      → R s s'
  unfolding write_all
  writes_frame guard [] s h = subst (R s) (ok-injective h) (f.same s)
  writes_frame guard (e ∷ es) s {s'} h =
      let (checked, rest) = >>-eq-ok (dox_check env guard s e) _ h in
      let (m, ready, rest') = >>=-eq-ok (prepare_memory_write env s e) _ rest in
      let (w, wrote, more) = >>=-eq-ok (put_with_statements env m e) _ rest' in
      f.chain s w s' (f.put_step s w e (prepared_write env s e ready wrote))
        (writes_frame guard es w more)

  pub puts_frame :
      (events : List MemoryEvent) (s : Store) {s' : Store} → put_all env events s ≡ ok s' → R s s'
  unfolding put_all
  puts_frame [] s h = subst (R s) (ok-injective h) (f.same s)
  puts_frame (e ∷ es) s {s'} h =
      let (w, wrote, more) = >>=-eq-ok (put_in_transaction env s e) _ h in
      f.chain s w s' (f.put_step s w e wrote) (puts_frame es w more)

  ids_frame :
      (new_id : String) (ids : List String) (s : Store) {s' : Store}
      → supersede_ids env new_id ids s ≡ ok s'
      → R s s'
  unfolding supersede_ids
  ids_frame new_id [] s h = subst (R s) (ok-injective h) (f.same s)
  ids_frame new_id (old_id ∷ ids) s {s'} h =
      let (r, moved, more) = >>=-eq-ok (supersede_in_transaction env s old_id new_id) _ h in
      f.chain s r.0 s' (f.supersede_step s r.0 old_id new_id r.1 moved)
        (ids_frame new_id ids r.0 more)

  supersedes_frame :
      (events : List MemoryEvent) (s : Store) {s' : Store}
      → supersede_all env events s ≡ ok s'
      → R s s'
  unfolding supersede_all
  supersedes_frame [] s h = subst (R s) (ok-injective h) (f.same s)
  supersedes_frame (e ∷ es) s {s'} h =
      let (w, moved, more) = >>=-eq-ok (supersede_ids env e.id e.supersedes s) _ h in
      f.chain s w s' (ids_frame e.id e.supersedes s moved) (supersedes_frame es w more)

  redactions_frame :
      (apply : Bool) (now : String) (actions : List MaintenanceAction) (s : Store) {s' : Store}
      {marked : List MaintenanceAction}
      → apply_redactions env apply now actions s ≡ ok (s', marked)
      → R s s'
  unfolding apply_redactions
  redactions_frame apply now [] s h = subst (R s) (first_eq h) (f.same s)
  redactions_frame apply now (a ∷ rest) s {s'} h =
      let (r, step, more) =
        >>=-eq-ok
          (if is_redaction a.action_type && apply
            then redact_in_transaction env s now a.memory_id
            else ok (s, false))
          _ h in
      let (r', steps, end) = >>=-eq-ok (apply_redactions env apply now rest r.0) _ more in
      f.chain s r.0 s' (one (is_redaction a.action_type && apply) r.0 r.1 step)
        (subst (R r.0) (first_eq end) (redactions_frame apply now rest r.0 steps))
    where
      one :
          (on : Bool) (t : Store) (b : Bool)
          → (if on then redact_in_transaction env s now a.memory_id else ok (s, false)) ≡ ok (t, b)
          → R s t
      one true t b g = f.redact_step s t now a.memory_id b g
      one false t b g = subst (R s) (first_eq g) (f.same s)

  deletions_frame :
      (apply : Bool) (actions : List MaintenanceAction) (s : Store)
      → R s (apply_deletions env apply actions s).0
  unfolding apply_deletions
  deletions_frame apply [] s = f.same s
  deletions_frame apply (a ∷ rest) s = elim (Bool-cases (is_deletion a.action_type && apply)) [
    | inl on ↦ rw on (
        f.chain s (delete_in_transaction env s a.memory_id).0 _ (f.delete_step s a.memory_id)
          (deletions_frame apply rest (delete_in_transaction env s a.memory_id).0))
    | inr off ↦ rw off (deletions_frame apply rest s)
  ]

  repair_frame : (on : Bool) (s : Store) {s' : Store} → repair env on s ≡ ok s' → R s s'
  unfolding repair
  repair_frame true s {s'} h = f.rebuild_step s s' h
  repair_frame false s h = subst (R s) (ok-injective h) (f.same s)

  body_frame :
      (request : MaintenanceRequest) (now : String) (report : MaintenanceReport) (s : Store)
      {s' : Store} {report' : MaintenanceReport}
      → maintain_body env request now report s ≡ ok (s', report')
      → R s s'
  unfolding maintain_body
  body_frame request now report s h =
      let (r, redacted, rest) =
        >>=-eq-ok
          (apply_redactions env (not request.dry_run && request.apply_secret_redactions) now
            report.actions s)
          _ h in
      let (s3, repaired, end) =
        >>=-eq-ok (repair env (not request.dry_run && request.repair_fts) _) _ rest in
      subst (R s) (first_eq end) (
        f.chain s r.0 s3 (redactions_frame _ now report.actions s redacted) (
          f.chain r.0 _ s3 (deletions_frame (not request.dry_run && request.apply_expired) r.1 r.0)
            (repair_frame _ _ repaired)))

  pub checked_frame :
      {A : Type 0} (checked : Result (Unit {0})) (s : Store) (r : Store × Result A)
      → R s r.0
      → R s (commit_either s (checked >> ok r)).0
  unfolding commit_either
  checked_frame (ok tt) s r k = k
  checked_frame (err e) s r k = f.same s

  module _ (now : String) (context : WriteContext) where
    pub many_frame :
        (events : List MemoryEvent) (guard : Option Bool) (s : Store)
        → R s (put_many_with_dox_guard env now context events guard s).0
    unfolding put_many_with_dox_guard write_body
    many_frame events guard s =
        guarded_frame env R f s _ (write_body env now context guard events)
          (creates_frame env R f now context _ events s)
          (λ s' a h.
            let (w, wrote, rest) = >>=-eq-ok (write_all env guard events _) _ h in
            subst (R _) (first_eq rest) (writes_frame guard events _ wrote))

    pub import_frame :
        (events : List MemoryEvent) (dry_run replace_existing : Bool) (s : Store)
        → R s (import_events env now context events dry_run replace_existing s).0
    unfolding import_events import_normalized import_body
    import_frame events dry_run replace s = go dry_run (normalize_import_events env events)
      where
        go :
            (dry : Bool) (normal : Result (List MemoryEvent))
            → R s (import_normalized env now context dry replace s normal).0
        go dry (err error) = f.same s
        go true (ok normal) = f.same s
        go false (ok normal) =
            let plan = plan_import replace s [] normal in
            guarded_frame env R f s _
              (import_body env now context plan (import_report (length normal) false plan))
              (action_frame env R f now context "import_jsonl" (first_id plan.planned_writes normal)
                s)
              (λ s' a h.
                let (w, wrote, rest) = >>=-eq-ok (put_all env plan.planned_writes _) _ h in
                let (v, moved, end) = >>=-eq-ok (supersede_all env plan.planned_writes w) _ rest in
                subst (R _) (first_eq end) (
                  f.chain _ w v (puts_frame plan.planned_writes _ wrote)
                    (supersedes_frame plan.planned_writes w moved)))

    planned_frame :
        (request : MaintenanceRequest) (report : MaintenanceReport) (s : Store)
        → R s (maintain_planned env now context request report s).0
    unfolding maintain_planned
    planned_frame request report s =
        elim (Bool-cases (
          not request.dry_run && request.apply_expired
          || (not request.dry_run && request.apply_secret_redactions
              || not request.dry_run && request.repair_fts))) [
                | inr off ↦ rw off (f.same s)
                | inl on ↦ rw on (
                    guarded_frame env R f s _ (maintain_body env request now report) (asked _ _)
                      (λ s' a h. body_frame request now report _ h))
              ]
      where
        asked :
            (repairs : Bool) (target : Option String)
            → R s (authorize_maintenance env now context repairs target s).1
        asked repairs target =
            unfold authorize_maintenance in
            (elim (Bool-cases (repairs || is_some target)) [
              | inl needed ↦ rw needed (action_frame env R f now context "maintain" target s)
              | inr free ↦ rw free (f.same s)
            ])

    pub maintain_frame :
        (request : MaintenanceRequest) (instant : ℕ) (id : String) (s : Store)
        → R s (maintain env now context request instant id s).0
    unfolding maintain maintain_listed
    maintain_frame request instant id s = go (list_all env true s)
      where
        go :
            (listed : Result (List MemoryEvent))
            → R s (maintain_listed env now context request instant id s listed).0
        go (err error) = f.same s
        go (ok events) = planned_frame request _ s
