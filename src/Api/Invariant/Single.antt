-- ===== src/Api/Invariant/Single.antt =====
-- The operations on one event keep the invariant.
use tree_ring_memory.Prelude.{
  String, ◌≡◌, ap, subst, Option, none, some, [], ◌∷◌, ◌>>=◌, >>=-eq-ok, ok-injective, Result, ok,
  err,
}
use tree_ring_memory.Event.{MemoryEvent}
use tree_ring_memory.Externals.{Externals}
use tree_ring_memory.Store.{Store}
use tree_ring_memory.Store.Write.{
  put_in_transaction, select_event, validate_memory_for_storage, redact_in_transaction,
  supersede_in_transaction,
}
use tree_ring_memory.Policy.{WriteContext, AuthorizationOutcome}
use tree_ring_memory.Api.{
  guarded, done, find_memory_by_operation_namespace, put_body, put, create_body, put_unless_found,
  as_created, put_operation, put_idempotent, supersede_body, supersede, delete_body, delete,
  redact_body, redact, ring_body, change_found, change_ring,
}
use tree_ring_memory.Api.Invariant.Steps.{IsConsistent, put-IsConsistent, delete-IsConsistent}
use tree_ring_memory.Api.Invariant.Rows.{redact-IsConsistent}
use tree_ring_memory.Api.Invariant.Supersede.{supersede-IsConsistent}
use tree_ring_memory.Api.Invariant.Guarded.{
  guarded_keeps, OnlyAudit, action-OnlyAudit, creates-OnlyAudit, audit-IsConsistent,
}

pub first_eq {ℓ} :
    {A : Type ℓ} {s s' : Store} {a a' : A}
    → ◌≡◌ {A = Result (Store × A)} (ok (s, a)) (ok (s', a'))
    → s ≡ s'
first_eq {A = A} h = ap (λ (p : Store × A). p.0) (ok-injective h)

module _ (env : Externals) (now : String) (context : WriteContext) where
  -- A transaction under an authorization that changes only the audit log.
  pub guarded-IsConsistent {ℓ} :
      {A : Type ℓ} (s : Store) (auth : AuthorizationOutcome × Store)
      (body : Store → Result (Store × A))
      → OnlyAudit s auth.1
      → IsConsistent env s
      → ((s' : Store) (a : A)
          → IsConsistent env auth.1
          → body auth.1 ≡ ok (s', a)
          → IsConsistent env s')
      → IsConsistent env (guarded s auth body).0
  guarded-IsConsistent s auth body a c step =
      let c' = audit-IsConsistent env now context a c in
      guarded_keeps (IsConsistent env) s auth body c c' (λ s' x h. step s' x c' h)

  abbrev pub finish {ℓ} : {A : Type ℓ} → A → Result Store → Result (Store × A)
  finish a r = r >>= λ (x : Store). ok (x, a)

  -- A body that writes one event and then reports a value.
  pub written_body {ℓ} :
      {A : Type ℓ} (a : A) (s : Store) (e : MemoryEvent) {s' : Store} {a' : A}
      → IsConsistent env s
      → finish a (put_in_transaction env s e) ≡ ok (s', a')
      → IsConsistent env s'
  written_body a s e c h =
      let (s1, wrote, rest) = >>=-eq-ok (put_in_transaction env s e) _ h in
      subst (IsConsistent env) (first_eq rest) (put-IsConsistent env s e c wrote)

  pub put_operation-IsConsistent :
      (e : MemoryEvent) (s : Store)
      → IsConsistent env s
      → IsConsistent env (put env now context e s).0
  unfolding put put_body done
  put_operation-IsConsistent e s c =
      guarded-IsConsistent s _ (put_body env now context e)
        (creates-OnlyAudit env now context "put" (e ∷ []) s) c
        (λ s' a c' h. written_body _ _ e c' h)

  pub idempotent-IsConsistent :
      (e : MemoryEvent) (s : Store)
      → IsConsistent env s
      → IsConsistent env (put_idempotent env now context e s).0
  unfolding put_idempotent put_operation as_created put_unless_found create_body
  idempotent-IsConsistent e s c = go e.operation_id (validate_memory_for_storage env e)
    where
      created_same :
          (r : Store × Result (Unit {0}))
          → IsConsistent env r.0
          → IsConsistent env (as_created env now context r).0
      created_same (s', ok _) c' = c'
      created_same (s', err error) c' = c'

      after_query :
          (found : Result (Option MemoryEvent))
          → IsConsistent env (put_unless_found env now context e s found).0
      after_query (err error) = c
      after_query (ok (some found)) = c
      after_query (ok none) =
          guarded-IsConsistent s _ (create_body env now context e)
            (creates-OnlyAudit env now context "put_idempotent" (e ∷ []) s) c
            (λ s' a c' h. written_body _ _ e c' h)

      go :
          (o : Option String) (checked : Result (Unit {0}))
          → IsConsistent env (put_operation env now context e s o checked).0
      go none checked = created_same (put env now context e s) (put_operation-IsConsistent e s c)
      go (some id) (err error) = c
      go (some id) (ok _) = after_query (find_memory_by_operation_namespace env s e id)

  pub supersede_operation-IsConsistent :
      (old_id new_id : String) (s : Store)
      → IsConsistent env s
      → IsConsistent env (supersede env now context old_id new_id s).0
  unfolding supersede supersede_body done
  supersede_operation-IsConsistent old_id new_id s c =
      guarded-IsConsistent s _ (supersede_body env now context old_id new_id)
        (action-OnlyAudit env now context "supersede" (some old_id) s) c
        (λ s' a c' h.
          let (r, moved, rest) = >>=-eq-ok (supersede_in_transaction env _ old_id new_id) _ h in
          subst (IsConsistent env) (first_eq rest)
            (supersede-IsConsistent env _ old_id new_id c' moved))

  pub delete_operation-IsConsistent :
      (memory_id : String) (s : Store)
      → IsConsistent env s
      → IsConsistent env (delete env now context memory_id s).0
  unfolding delete delete_body done
  delete_operation-IsConsistent memory_id s c =
      guarded-IsConsistent s _ (delete_body env now context memory_id)
        (action-OnlyAudit env now context "delete" (some memory_id) s) c
        (λ s' a c' h.
          subst (IsConsistent env) (first_eq h) (delete-IsConsistent env _ memory_id c'))

  pub redact_operation-IsConsistent :
      (memory_id : String) (s : Store)
      → IsConsistent env s
      → IsConsistent env (redact env now context memory_id s).0
  unfolding redact redact_body done
  redact_operation-IsConsistent memory_id s c =
      guarded-IsConsistent s _ (redact_body env now context memory_id)
        (action-OnlyAudit env now context "redact" (some memory_id) s) c
        (λ s' a c' h.
          let (r, moved, rest) = >>=-eq-ok (redact_in_transaction env _ now memory_id) _ h in
          subst (IsConsistent env) (first_eq rest)
            (redact-IsConsistent env _ now memory_id c' moved))

  pub ring-IsConsistent :
      (memory_id ring event_type : String) (s : Store)
      → IsConsistent env s
      → IsConsistent env (change_ring env now context memory_id ring event_type s).0
  unfolding change_ring change_found ring_body
  ring-IsConsistent memory_id ring event_type s c = go (select_event env memory_id s)
    where
      go :
          (found : Result (Option MemoryEvent))
          → IsConsistent env (change_found env now context memory_id ring event_type s found).0
      go (err error) = c
      go (ok none) = c
      go (ok (some event)) =
          guarded-IsConsistent s _ (ring_body env now context memory_id ring event_type event)
            (action-OnlyAudit env now context "change_ring" (some memory_id) s) c
            (λ s' a c' h. written_body _ _ _ c' h)
