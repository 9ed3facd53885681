-- ===== src/Api/Maintain/Applied.antt =====
-- What a maintenance run that applies deletions leaves.
use tree_ring_memory.Prelude.{
  String, ◌≡◌, sym, ap, ◌∙◌, ◌⊎◌, inl, inr, Bool, true, false, ◌&&◌, none, List, map, All,
  ok-injective, >>=-eq-ok, ok, subst, not, ℕ, ◌||◌, arith, filter, All-map, Result,
}
use tree_ring_memory.Externals.{Externals}
use tree_ring_memory.Policy.{WriteContext}
use tree_ring_memory.Api.{get}
use tree_ring_memory.Api.Maintain.Effects.{listed}
use tree_ring_memory.Api.Outcomes.{guarded-eq-ok}
use tree_ring_memory.Api.Invariant.Steps.{IsConsistent}
use tree_ring_memory.Api.Invariant.Rows.{select-find, redacted}
use tree_ring_memory.Api.Invariant.Maintained.{maintain-IsConsistent}
use tree_ring_memory.Store.{Store}
use tree_ring_memory.Maintenance.{
  MaintenanceAction, MaintenanceRequest, MaintenanceReport, plan_maintenance_at,
}
use tree_ring_memory.Api.Maintain.{
  apply_deletions, is_deletion, apply_redactions, order_by_created, with_status, collect_rows,
  rebuild_fts, repair, maintain_body, is_current, first_target, authorize_maintenance,
  maintain_planned, maintain_listed, maintain,
}
use tree_ring_memory.Api.Maintain.Deletions.{
  key, IsGone, keys-redactions, keys-deletions, deletions-IsGone,
}

module _ (env : Externals) where
  repair-memories : (on : Bool) (s s' : Store) → repair env on s ≡ ok s' → s'.memories ≡ s.memories
  unfolding repair rebuild_fts
  repair-memories true s s' h =
      let (es, read, end) = >>=-eq-ok (collect_rows env (order_by_created s.memories)) _ h in
      ap (λ (x : Store). x.memories) (sym (ok-injective end))
  repair-memories false s s' h = ap (λ (x : Store). x.memories) (sym (ok-injective h))

  -- What the report of a run that deletes says, against the plan.
  record IsApplied (plan : List MaintenanceAction) (s' : Store) (report : MaintenanceReport)
      : Type 0 where
    keys : map key report.actions ≡ map key plan
    gone : All (IsGone s'.memories) report.actions

  body-IsApplied :
      (request : MaintenanceRequest) (now : String) (plan : MaintenanceReport) (s s' : Store)
      (report : MaintenanceReport)
      → (not request.dry_run && request.apply_expired) ≡ true
      → maintain_body env request now plan s ≡ ok (s', report)
      → IsApplied plan.actions s' report
  unfolding maintain_body with_status
  body-IsApplied request now plan s s' report on h =
      let (r, redacted, rest) =
        >>=-eq-ok
          (apply_redactions env (not request.dry_run && request.apply_secret_redactions) now
            plan.actions s)
          _ h in
      let expired = not request.dry_run && request.apply_expired in
      let deleted = apply_deletions env expired r.1 r.0 in
      let (s3, repaired, end) =
        >>=-eq-ok (repair env (not request.dry_run && request.repair_fts) deleted.0) _ rest in
      let memories = repair-memories (not request.dry_run && request.repair_fts) _ s3 repaired in
      let gone : All (IsGone deleted.0.memories) deleted.1 =
        subst
          (λ (b : Bool).
            All (IsGone (apply_deletions env b r.1 r.0).0.memories)
              (apply_deletions env b r.1 r.0).1)
          (sym on) (deletions-IsGone env r.1 r.0) in
      let applied : IsApplied plan.actions s3 (record plan { actions = deleted.1 }) = record {
        keys =
            keys-deletions env expired r.1 r.0 ∙ keys-redactions env _ now plan.actions s redacted;
        gone = rw memories gone;
      } in
      subst (λ (p : Store × MaintenanceReport). IsApplied plan.actions p.0 p.1) (ok-injective end)
        (record { keys = applied.keys; gone = applied.gone })

  applying : (b c d e : Bool) → b ≡ false → c ≡ true → (not b && c || (d || e)) ≡ true
  applying b c d e off on = ground arith

  All-get :
      (s' : Store) (actions : List MaintenanceAction)
      → IsConsistent env s'
      → All (IsGone s'.memories) actions
      → All
          (λ (a : MaintenanceAction).
            (is_deletion a.action_type ≡ false) ⊎ (get env s' a.memory_id ≡ ok none))
          actions
  unfolding get
  All-get s' actions c gone =
      All-map actions
        (λ a g. elim g [
          | inl other ↦ inl other
          | inr h ↦ inr (select-find env s' a.memory_id c ∙ ap ok h)
        ])
        gone

  -- A run of `maintain` that is no dry run, applies deletions and succeeds on consistent tables
  -- reports the actions of the plan, in their order, and after it `get` finds nothing for the id of
  -- any deletion among them.
  pub maintain_deletes :
      (now : String) (context : WriteContext) (request : MaintenanceRequest) (instant : ℕ)
      (id : String) (s s' : Store) (report : MaintenanceReport)
      → IsConsistent env s
      → request.dry_run ≡ false
      → request.apply_expired ≡ true
      → maintain env now context request instant id s ≡ (s', ok report)
      → (map key report.actions
          ≡ map key
              (plan_maintenance_at env
                (order_by_created (filter (is_current true) s.memories))
                request
                instant
                id
                now).actions)
        × All
            (λ (a : MaintenanceAction).
              (is_deletion a.action_type ≡ false) ⊎ (get env s' a.memory_id ≡ ok none))
            report.actions
  unfolding maintain maintain_listed maintain_planned
  maintain_deletes now context request instant id s s' report c wet asked h =
      let events = order_by_created (filter (is_current true) s.memories) in
      let plan = plan_maintenance_at env events request instant id now in
      let planned = rw (listed env true s c) at h in
      let on =
        applying request.dry_run request.apply_expired
          (not request.dry_run && request.apply_secret_redactions)
          (not request.dry_run && request.repair_fts) wet asked in
      let body =
        guarded-eq-ok s
          (authorize_maintenance env now context (not request.dry_run && request.repair_fts)
            (first_target (not request.dry_run && request.apply_secret_redactions)
              (not request.dry_run && request.apply_expired) plan.actions)
            s)
          (maintain_body env request now plan) (rw on at planned) in
      let applied = body-IsApplied request now plan _ s' report (ground (arith, wet, asked)) body in
      let c' : IsConsistent env s' =
        subst (IsConsistent env) (ap (λ (p : Store × Result MaintenanceReport). p.0) h) (
          unfold maintain maintain_listed maintain_planned in
          maintain-IsConsistent env now context request instant id s c) in
      (applied.keys, All-get s' report.actions c' applied.gone)
