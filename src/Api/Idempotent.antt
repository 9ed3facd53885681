-- ===== src/Api/Idempotent.antt =====
-- `put_idempotent`: a call with an operation id takes effect once.
use tree_ring_memory.Store.Write.{reread_event}
use tree_ring_memory.Prelude.{
  String, ◌≡◌, refl, ap, true, false, not, ◌&&◌, Option, none, some, List, [], ◌∷◌, arith, ◌==◌,
  eq_refl, is_some, option_eq_iff, filter, any, ◌∙◌, inl, inr, Bool, Bool-cases, of_some,
  any-append, >>=-eq-ok, ok-injective, Result, ok, err,
}
use tree_ring_memory.Event.{MemoryEvent}
use tree_ring_memory.Externals.{Externals}
use tree_ring_memory.Event.Validate.{validate}
use tree_ring_memory.Api.Invariant.Steps.{IsConsistent, reread_valid}
use tree_ring_memory.Api.Invariant.Rows.{read_row_valid}
use tree_ring_memory.Store.Write.{validate_memory_for_storage, put_in_transaction}
use tree_ring_memory.Policy.{WriteContext, authorize_event_creates}
use tree_ring_memory.Api.Invariant.Guarded.{OnlyAudit, creates-OnlyAudit, audit-IsConsistent}
use tree_ring_memory.Api.Invariant.Single.{first_eq}
use tree_ring_memory.Api.Outcomes.{guarded-eq-ok}
use tree_ring_memory.Store.Write.Inversion.{put-eq-ok, put-checked}
use tree_ring_memory.Store.Tables.{find-upsert}
use tree_ring_memory.Store.{
  rows_of, find_memory, coalesce_eq, same_namespace, Store, exists_memory, replace_rows, upsert,
}
use tree_ring_memory.Api.{
  find_by_namespace, PutOutcome, created, existing, find_memory_by_operation_namespace, create_body,
  put_unless_found, put_operation, put_idempotent,
}

coalesce_eq_self : (o : Option String) → coalesce_eq o o ≡ true
unfolding coalesce_eq
coalesce_eq_self none = refl
coalesce_eq_self (some a) = eq_refl a

same_namespace_self :
    (e : MemoryEvent) (id : String) → e.operation_id ≡ some id → same_namespace e e ≡ true
unfolding same_namespace
same_namespace_self e id h =
    let there : is_some e.operation_id ≡ true = ap is_some h in
    let same = (option_eq_iff e.operation_id e.operation_id).1 refl in
    ground (
      arith,
      there,
      same,
      coalesce_eq_self e.project,
      coalesce_eq_self e.workflow_id,
      coalesce_eq_self e.agent_profile,
    )

-- A row of another id with the namespace of the event.
abbrev other_holder : MemoryEvent → MemoryEvent → Bool
other_holder e m = not (m.id == e.id) && same_namespace e m

-- The query for the namespace of an event finds the row of its namespace that the query for its id
-- finds, where no other row has the namespace.
namespace-found :
    (e x : MemoryEvent) (ms : List MemoryEvent)
    → same_namespace e x ≡ true
    → any (other_holder e) ms ≡ false
    → find_memory e.id ms ≡ some x
    → find_by_namespace e ms ≡ some x
unfolding find_by_namespace any find_memory rows_of filter
namespace-found e x [] self free found = cc
namespace-found e x (m ∷ ms) self free found = elim (Bool-cases (m.id == e.id)) [
  | inl p ↦
      let here : m ≡ x = of_some (rw p at found) in
      let mine : same_namespace e m ≡ true = rw here self in rw mine (ap some here)
  | inr p ↦ elim (Bool-cases (same_namespace e m)) [
    | inl q ↦ cc (rw q at (rw p at free))
    | inr q ↦ rw q (namespace-found e x ms self (rw q at (rw p at free)) (rw p at found))
  ]
]

any-replace :
    (e : MemoryEvent) (ms : List MemoryEvent)
    → any (other_holder e) ms ≡ false
    → any (other_holder e) (replace_rows e ms) ≡ false
unfolding any replace_rows
any-replace e [] free = refl
any-replace e (m ∷ ms) free = elim (Bool-cases (m.id == e.id)) [
  | inl p ↦ rw p (rw (eq_refl e.id) (any-replace e ms (rw p at free)))
  | inr p ↦ rw p (elim (Bool-cases (same_namespace e m)) [
    | inl q ↦ cc (rw q at (rw p at free))
    | inr q ↦ rw p (rw q (any-replace e ms (rw q at (rw p at free))))
  ])
]

any-upsert :
    (e : MemoryEvent) (ms : List MemoryEvent)
    → any (other_holder e) ms ≡ false
    → any (other_holder e) (upsert e ms) ≡ false
unfolding upsert
any-upsert e ms free = elim (Bool-cases (exists_memory e.id ms)) [
  | inl old ↦ rw old (any-replace e ms free)
  | inr new ↦ rw new (
      rw (any-append (other_holder e) ms (e ∷ [])) (rw free (unfold any in rw (eq_refl e.id) refl)))
]

module _ (env : Externals) (now : String) (context : WriteContext) where
  -- A creation by `put_idempotent` is one write.
  created-wrote :
      (e : MemoryEvent) (operation_id : String) (s s' : Store)
      → e.operation_id ≡ some operation_id
      → put_idempotent env now context e s ≡ (s', ok created)
      → (before : Store) × OnlyAudit s before × (put_in_transaction env before e ≡ ok s')
  unfolding put_idempotent put_operation put_unless_found create_body
  created-wrote e operation_id s s' op h =
      go e.operation_id (validate_memory_for_storage env e) op h
    where
      after_query :
          (found : Result (Option MemoryEvent))
          → put_unless_found env now context e s found ≡ (s', ok created)
          → (before : Store) × OnlyAudit s before × (put_in_transaction env before e ≡ ok s')
      after_query (err error) h = cc (ap (λ (p : Store × Result PutOutcome). p.1) h)
      after_query (ok (some m)) h =
          cc (ok-injective (ap (λ (p : Store × Result PutOutcome). p.1) h))
      after_query (ok none) h =
          let auth = authorize_event_creates env now context "put_idempotent" (e ∷ []) s in
          let body = guarded-eq-ok s auth (create_body env now context e) h in
          let (w, wrote, rest) = >>=-eq-ok (put_in_transaction env auth.1 e) _ body in
          (
            auth.1,
            creates-OnlyAudit env now context "put_idempotent" (e ∷ []) s,
            wrote ∙ ap ok (first_eq rest),
          )

      go :
          (o : Option String) (checked : Result (Unit {0}))
          → o ≡ some operation_id
          → put_operation env now context e s o checked ≡ (s', ok created)
          → (before : Store) × OnlyAudit s before × (put_in_transaction env before e ≡ ok s')
      go none checked q h = cc
      go (some id) (err error) q h = cc (ap (λ (p : Store × Result PutOutcome). p.1) h)
      go (some id) (ok _) q h = after_query (find_memory_by_operation_namespace env s e id) h

  -- On the tables that a `put_idempotent` which created an event with an operation id has left, a
  -- second call with the same event, by any context, returns the event, its scores as they
  -- are read back, as existing and changes nothing.
  pub put_idempotent-twice :
      (e : MemoryEvent) (operation_id : String) (s s' : Store)
      → IsConsistent env s
      → e.operation_id ≡ some operation_id
      → put_idempotent env now context e s ≡ (s', ok created)
      → (later : String) (by : WriteContext)
      → put_idempotent env later by e s' ≡ (s', ok (existing (reread_event env e)))
  unfolding put_idempotent put_operation put_unless_found find_memory_by_operation_namespace
  put_idempotent-twice e operation_id s s' c op h later by =
      let (before, a, wrote) = created-wrote e operation_id s s' op h in
      let cb = audit-IsConsistent env now context a c in
      let w = put-eq-ok env before e wrote in
      let self = same_namespace_self e operation_id op in
      let there : find_memory e.id s'.memories ≡ some (reread_event env e) = rw w.memories (
        rw (find-upsert (reread_event env e) e.id before.memories cb.unique)
          (rw (eq_refl e.id) refl)) in
      let found : find_by_namespace e s'.memories ≡ some (reread_event env e) =
        namespace-found e (reread_event env e) s'.memories (unfold same_namespace in self)
          (rw w.memories (
            unfold same_namespace in
            any-upsert (reread_event env e) before.memories w.namespace_free))
          there in
      repeated e.operation_id (validate_memory_for_storage env e) op
        (put-checked env before e wrote) w.valid found
    where
      repeated :
          (o : Option String) (checked : Result (Unit {0}))
          → o ≡ some operation_id
          → checked ≡ ok tt
          → validate e ≡ ok tt
          → find_by_namespace e s'.memories ≡ some (reread_event env e)
          → put_operation env later by e s' o checked ≡ (s', ok (existing (reread_event env e)))
      repeated none checked q v valid found = cc
      repeated (some id) (err error) q v valid found = cc
      repeated (some id) (ok _) q v valid found = rw found (
          rw
            (read_row_valid env (some (reread_event env e))
              (λ m h. rw (← of_some h) (reread_valid env e valid)))
            refl)
