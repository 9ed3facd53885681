-- ===== src/Api/Invariant/Many.antt =====
-- The operations on many events keep the invariant.
use tree_ring_memory.Prelude.{
  String, ◌≡◌, subst, Bool, true, false, Option, List, [], ◌∷◌, length, >>=-eq-ok, >>-eq-ok,
  ok-injective, Result, ok, err,
}
use tree_ring_memory.Event.{MemoryEvent}
use tree_ring_memory.Externals.{Externals}
use tree_ring_memory.Store.{Store}
use tree_ring_memory.Store.Write.{
  put_in_transaction, prepare_memory_write, put_with_statements, supersede_in_transaction,
}
use tree_ring_memory.Portability.{normalize_import_events}
use tree_ring_memory.Policy.{WriteContext}
use tree_ring_memory.Api.Batch.{
  put_all, plan_import, first_id, import_report, dox_check, write_all, supersede_ids, supersede_all,
  write_body, put_many_with_dox_guard, import_body, import_normalized, import_events,
}
use tree_ring_memory.Api.Invariant.Steps.{IsConsistent, put-IsConsistent}
use tree_ring_memory.Api.Invariant.Supersede.{supersede-IsConsistent}
use tree_ring_memory.Api.Invariant.Guarded.{action-OnlyAudit, creates-OnlyAudit}
use tree_ring_memory.Api.Invariant.Single.{first_eq, guarded-IsConsistent}

module _ (env : Externals) where
  -- A preparation and its statements are one write.
  pub prepared_write :
      (s : Store) (e : MemoryEvent) {m s' : Store}
      → prepare_memory_write env s e ≡ ok m
      → put_with_statements env m e ≡ ok s'
      → put_in_transaction env s e ≡ ok s'
  unfolding put_in_transaction
  prepared_write s e ready wrote = rw (ready, wrote)

  write_all-IsConsistent :
      (guard : Option Bool) (events : List MemoryEvent) (s : Store) {s' : Store}
      → IsConsistent env s
      → write_all env guard events s ≡ ok s'
      → IsConsistent env s'
  unfolding write_all
  write_all-IsConsistent guard [] s c h = subst (IsConsistent env) (ok-injective h) c
  write_all-IsConsistent guard (e ∷ es) s c h =
      let (checked, rest) = >>-eq-ok (dox_check env guard s e) _ h in
      let (m, ready, rest') = >>=-eq-ok (prepare_memory_write env s e) _ rest in
      let (w, wrote, more) = >>=-eq-ok (put_with_statements env m e) _ rest' in
      write_all-IsConsistent guard es w
        (put-IsConsistent env s e c (prepared_write s e ready wrote)) more

  put_all-IsConsistent :
      (events : List MemoryEvent) (s : Store) {s' : Store}
      → IsConsistent env s
      → put_all env events s ≡ ok s'
      → IsConsistent env s'
  unfolding put_all
  put_all-IsConsistent [] s c h = subst (IsConsistent env) (ok-injective h) c
  put_all-IsConsistent (e ∷ es) s c h =
      let (w, wrote, more) = >>=-eq-ok (put_in_transaction env s e) _ h in
      put_all-IsConsistent es w (put-IsConsistent env s e c wrote) more

  supersede_ids-IsConsistent :
      (new_id : String) (ids : List String) (s : Store) {s' : Store}
      → IsConsistent env s
      → supersede_ids env new_id ids s ≡ ok s'
      → IsConsistent env s'
  unfolding supersede_ids
  supersede_ids-IsConsistent new_id [] s c h = subst (IsConsistent env) (ok-injective h) c
  supersede_ids-IsConsistent new_id (old_id ∷ ids) s c h =
      let (r, moved, more) = >>=-eq-ok (supersede_in_transaction env s old_id new_id) _ h in
      supersede_ids-IsConsistent new_id ids r.0 (supersede-IsConsistent env s old_id new_id c moved)
        more

  supersede_all-IsConsistent :
      (events : List MemoryEvent) (s : Store) {s' : Store}
      → IsConsistent env s
      → supersede_all env events s ≡ ok s'
      → IsConsistent env s'
  unfolding supersede_all
  supersede_all-IsConsistent [] s c h = subst (IsConsistent env) (ok-injective h) c
  supersede_all-IsConsistent (e ∷ es) s c h =
      let (w, moved, more) = >>=-eq-ok (supersede_ids env e.id e.supersedes s) _ h in
      supersede_all-IsConsistent es w (supersede_ids-IsConsistent e.id e.supersedes s c moved) more

  module _ (now : String) (context : WriteContext) where
    pub many-IsConsistent :
        (events : List MemoryEvent) (guard : Option Bool) (s : Store)
        → IsConsistent env s
        → IsConsistent env (put_many_with_dox_guard env now context events guard s).0
    unfolding put_many_with_dox_guard write_body
    many-IsConsistent events guard s c =
        guarded-IsConsistent env now context s _ (write_body env now context guard events)
          (creates-OnlyAudit env now context _ events s) c
          (λ s' a c' h.
            let (w, wrote, rest) = >>=-eq-ok (write_all env guard events _) _ h in
            subst (IsConsistent env) (first_eq rest)
              (write_all-IsConsistent guard events _ c' wrote))

    pub import-IsConsistent :
        (decoded : List MemoryEvent) (dry_run replace_existing : Bool) (s : Store)
        → IsConsistent env s
        → IsConsistent env (import_events env now context decoded dry_run replace_existing s).0
    unfolding import_events import_normalized import_body
    import-IsConsistent decoded dry_run replace_existing s c =
        go dry_run (normalize_import_events env decoded)
      where
        go :
            (dry : Bool) (events : Result (List MemoryEvent))
            → IsConsistent env (import_normalized env now context dry replace_existing s events).0
        go dry (err error) = c
        go true (ok events) = c
        go false (ok events) =
            let plan = plan_import replace_existing s [] events in
            guarded-IsConsistent env now context s _
              (import_body env now context plan (import_report (length events) false plan))
              (action-OnlyAudit env now context "import_jsonl" (first_id plan.planned_writes events)
                s)
              c
              (λ s' a c' h.
                let (w, wrote, rest) = >>=-eq-ok (put_all env plan.planned_writes _) _ h in
                let (v, moved, rest') =
                  >>=-eq-ok (supersede_all env plan.planned_writes w) _ rest in
                subst (IsConsistent env) (first_eq rest') (
                  supersede_all-IsConsistent plan.planned_writes w
                    (put_all-IsConsistent plan.planned_writes _ c' wrote) moved))
