-- ===== src/Api/Invariant/Maintained.antt =====
-- `maintain` keeps the invariant.
use tree_ring_memory.Prelude.{
  ℕ, String, ◌≡◌, sym, subst, ◌∙◌, inl, inr, Bool, true, false, not, ◌&&◌, ◌||◌, Option, List, [],
  ◌∷◌, if◌then◌else◌, Bool-cases, is_some, >>=-eq-ok, ok-injective, Result, ok, err,
}
use tree_ring_memory.Externals.{Externals}
use tree_ring_memory.Event.{MemoryEvent}
use tree_ring_memory.Store.{Store}
use tree_ring_memory.Store.Write.{redact_in_transaction, delete_in_transaction}
use tree_ring_memory.Policy.{WriteContext}
use tree_ring_memory.Maintenance.{MaintenanceRequest, MaintenanceAction, MaintenanceReport}
use tree_ring_memory.Api.Maintain.{
  apply_deletions, is_redaction, is_deletion, list_all, apply_redactions, repair, maintain_body,
  authorize_maintenance, maintain_planned, maintain_listed, maintain,
}
use tree_ring_memory.Api.Invariant.Steps.{IsConsistent, delete-IsConsistent}
use tree_ring_memory.Api.Invariant.Rows.{redact-IsConsistent, redacted}
use tree_ring_memory.Api.Invariant.Guarded.{OnlyAudit, OnlyAudit-refl, action-OnlyAudit}
use tree_ring_memory.Api.Invariant.Single.{first_eq, guarded-IsConsistent}
use tree_ring_memory.Api.Invariant.Rebuilt.{rebuild-IsConsistent}

module _ (env : Externals) where
  step-IsConsistent :
      (on : Bool) (now id : String) (s s' : Store) (applied : Bool)
      → IsConsistent env s
      → (if on then redact_in_transaction env s now id else ok (s, false)) ≡ ok (s', applied)
      → IsConsistent env s'
  step-IsConsistent true now id s s' applied c h = redact-IsConsistent env s now id c h
  step-IsConsistent false now id s s' applied c h = subst (IsConsistent env) (first_eq h) c

  redactions-IsConsistent :
      (apply : Bool) (now : String) (actions : List MaintenanceAction) (s : Store) {s' : Store}
      {marked : List MaintenanceAction}
      → IsConsistent env s
      → apply_redactions env apply now actions s ≡ ok (s', marked)
      → IsConsistent env s'
  unfolding apply_redactions
  redactions-IsConsistent apply now [] s c h = subst (IsConsistent env) (first_eq h) c
  redactions-IsConsistent apply now (a ∷ rest) s c h =
      let (r, step, more) =
        >>=-eq-ok
          (if is_redaction a.action_type && apply
            then redact_in_transaction env s now a.memory_id
            else ok (s, false))
          _ h in
      let (r', steps, end) = >>=-eq-ok (apply_redactions env apply now rest r.0) _ more in
      let c' = step-IsConsistent _ now a.memory_id s r.0 r.1 c step in
      subst (IsConsistent env) (first_eq end) (redactions-IsConsistent apply now rest r.0 c' steps)

  deletions-IsConsistent :
      (apply : Bool) (actions : List MaintenanceAction) (s : Store)
      → IsConsistent env s
      → IsConsistent env (apply_deletions env apply actions s).0
  unfolding apply_deletions
  deletions-IsConsistent apply [] s c = c
  deletions-IsConsistent apply (a ∷ rest) s c =
      elim (Bool-cases (is_deletion a.action_type && apply)) [
        | inl on ↦ rw on (
            deletions-IsConsistent apply rest (delete_in_transaction env s a.memory_id).0
              (delete-IsConsistent env s a.memory_id c))
        | inr off ↦ rw off (deletions-IsConsistent apply rest s c)
      ]

  repair-IsConsistent :
      (on : Bool) (s : Store) {s' : Store}
      → IsConsistent env s
      → repair env on s ≡ ok s'
      → IsConsistent env s'
  unfolding repair
  repair-IsConsistent true s c h =
      let (s1, rebuilt, good) = rebuild-IsConsistent env s c in
      subst (IsConsistent env) (ok-injective (sym rebuilt ∙ h)) good
  repair-IsConsistent false s c h = subst (IsConsistent env) (ok-injective h) c

  body-IsConsistent :
      (request : MaintenanceRequest) (now : String) (report : MaintenanceReport) (s : Store)
      {s' : Store} {report' : MaintenanceReport}
      → IsConsistent env s
      → maintain_body env request now report s ≡ ok (s', report')
      → IsConsistent env s'
  unfolding maintain_body
  body-IsConsistent request now report s c h =
      let (r, redacted, rest) =
        >>=-eq-ok
          (apply_redactions env (not request.dry_run && request.apply_secret_redactions) now
            report.actions s)
          _ h in
      let c1 = redactions-IsConsistent _ now report.actions s c redacted in
      let c2 = deletions-IsConsistent (not request.dry_run && request.apply_expired) r.1 r.0 c1 in
      let (s3, repaired, end) =
        >>=-eq-ok (repair env (not request.dry_run && request.repair_fts) _) _ rest in
      subst (IsConsistent env) (first_eq end) (repair-IsConsistent _ _ c2 repaired)

  module _ (now : String) (context : WriteContext) where
    maintenance-OnlyAudit :
        (repair_fts : Bool) (target : Option String) (s : Store)
        → OnlyAudit s (authorize_maintenance env now context repair_fts target s).1
    unfolding authorize_maintenance
    maintenance-OnlyAudit repair_fts target s = elim (Bool-cases (repair_fts || is_some target)) [
      | inl asked ↦ rw asked (action-OnlyAudit env now context "maintain" target s)
      | inr free ↦ rw free (OnlyAudit-refl s)
    ]

    planned-IsConsistent :
        (request : MaintenanceRequest) (report : MaintenanceReport) (s : Store)
        → IsConsistent env s
        → IsConsistent env (maintain_planned env now context request report s).0
    unfolding maintain_planned
    planned-IsConsistent request report s c =
        elim (Bool-cases (
          not request.dry_run && request.apply_expired
          || (not request.dry_run && request.apply_secret_redactions
              || not request.dry_run && request.repair_fts))) [
                | inr off ↦ rw off c
                | inl on ↦ rw on (
                    guarded-IsConsistent env now context s _ (maintain_body env request now report)
                      (maintenance-OnlyAudit _ _ s) c
                      (λ s' a c' h. body-IsConsistent request now report _ c' h))
              ]

    pub maintain-IsConsistent :
        (request : MaintenanceRequest) (instant : ℕ) (id : String) (s : Store)
        → IsConsistent env s
        → IsConsistent env (maintain env now context request instant id s).0
    unfolding maintain maintain_listed
    maintain-IsConsistent request instant id s c = go (list_all env true s)
      where
        go :
            (listed : Result (List MemoryEvent))
            → IsConsistent env (maintain_listed env now context request instant id s listed).0
        go (err error) = c
        go (ok events) = planned-IsConsistent request _ s c
