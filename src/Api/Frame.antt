-- ===== src/Api/Frame.antt =====
-- Relations between the tables before and after: one that every step inside a transaction
-- satisfies holds of every operation.
pub mod Many
pub mod Consolidated
pub mod Audited
use tree_ring_memory.Prelude.{
  String, ◌≡◌, subst, inl, inr, Bool, ◌||◌, Option, none, some, List, [], ◌∷◌, Bool-cases, is_empty,
  >>=-eq-ok, Result, ok, err,
}
use tree_ring_memory.Event.{MemoryEvent}
use tree_ring_memory.Externals.{Externals}
use tree_ring_memory.Store.{Store, PolicyRow, ConsolidationRow}
use tree_ring_memory.Store.Write.{
  put_in_transaction, select_event, validate_memory_for_storage, delete_in_transaction,
  redact_in_transaction, supersede_in_transaction,
}
use tree_ring_memory.Policy.{
  WriteContext, AuthorizationOutcome, is_unrestricted, protected_target, hashes_match, insert_audit,
  authorize_with_policy, authorize_coordinator_action, authorize_target, authorize_event_creates,
}
use tree_ring_memory.Api.{
  guarded, done, find_memory_by_operation_namespace, put_body, put, create_body, put_unless_found,
  as_created, put_operation, put_idempotent, supersede_body, supersede, delete_body, delete,
  redact_body, redact, ring_body, change_found, change_ring,
}
use tree_ring_memory.Api.Maintain.{rebuild_fts}
use tree_ring_memory.Api.Invariant.Single.{first_eq, finish}
use tree_ring_memory.Api.Invariant.Guarded.{guarded_keeps}

-- The relation is a preorder that holds of each step.
pub record IsFrame (env : Externals) (R : Store → Store → Type 0) : Type 0 where
  pub same : (s : Store) → R s s
  pub chain : (s t u : Store) → R s t → R t u → R s u
  pub put_step : (s s' : Store) (e : MemoryEvent) → put_in_transaction env s e ≡ ok s' → R s s'
  pub redact_step :
      (s s' : Store) (now id : String) (b : Bool)
      → redact_in_transaction env s now id ≡ ok (s', b)
      → R s s'
  pub supersede_step :
      (s s' : Store) (old_id new_id : String) (b : Bool)
      → supersede_in_transaction env s old_id new_id ≡ ok (s', b)
      → R s s'
  pub delete_step : (s : Store) (id : String) → R s (delete_in_transaction env s id).0
  pub rebuild_step : (s s' : Store) → rebuild_fts env s ≡ ok s' → R s s'
  pub audit_step :
      (now : String) (context : WriteContext) (action decision reason : String)
      (target : Option String) (s : Store)
      → R s (insert_audit env now context action decision reason target s)
  pub policy_step : (s : Store) (p : PolicyRow) → R s (record s { policy = p })
  pub record_step :
      (s : Store) (rows : List ConsolidationRow) → R s (record s { consolidations = rows })

module _ (env : Externals) (R : Store → Store → Type 0) (f : IsFrame env R) where
  module _ (now : String) (context : WriteContext) where
    pub authorized :
        (action : String) (target : Option String) (p : PolicyRow) (s : Store)
        → R s (authorize_with_policy env now context action target p s).1
    unfolding authorize_with_policy
    authorized action target p s =
        elim (Bool-cases (hashes_match context.capability_hash p.capability_hash)) [
          | inl fits ↦ rw fits (f.audit_step now context action "allowed" _ target s)
          | inr unfit ↦ rw unfit (f.audit_step now context action "denied" _ target s)
        ]

    pub action_frame :
        (action : String) (target : Option String) (s : Store)
        → R s (authorize_coordinator_action env now context action target s).1
    unfolding authorize_coordinator_action
    action_frame action target s = elim (Bool-cases (is_unrestricted s.policy.mode)) [
      | inl p ↦ rw p (f.same s)
      | inr p ↦ rw p (authorized action target s.policy s)
    ]

    pub creates_frame :
        (action : String) (events : List MemoryEvent) (s : Store)
        → R s (authorize_event_creates env now context action events s).1
    unfolding authorize_event_creates authorize_target
    creates_frame action events s =
        elim (Bool-cases (is_unrestricted s.policy.mode || is_empty events)) [
          | inl p ↦ rw p (f.same s)
          | inr p ↦ rw p (targets (protected_target context s [] events))
        ]
      where
        targets : (o : Option String) → R s (authorize_target env now context action o s).1
        targets none = f.same s
        targets (some target) = authorized action (some target) s.policy s

  -- A transaction whose authorization and body satisfy the relation.
  pub guarded_frame {ℓ} :
      {A : Type ℓ} (s : Store) (auth : AuthorizationOutcome × Store)
      (body : Store → Result (Store × A))
      → R s auth.1
      → ((s' : Store) (a : A) → body auth.1 ≡ ok (s', a) → R auth.1 s')
      → R s (guarded s auth body).0
  guarded_frame s auth body a step =
      guarded_keeps (R s) s auth body (f.same s) a (λ s' x h. f.chain s auth.1 s' a (step s' x h))

  -- A body that writes one event and then reports a value.
  written_frame {ℓ} :
      {A : Type ℓ} (now : String) (context : WriteContext) (a : A) (s : Store) (e : MemoryEvent)
      {s' : Store} {a' : A}
      → finish env now context a (put_in_transaction env s e) ≡ ok (s', a')
      → R s s'
  written_frame now context a s e h =
      let (s1, wrote, rest) = >>=-eq-ok (put_in_transaction env s e) _ h in
      subst (R s) (first_eq rest) (f.put_step s s1 e wrote)

  module _ (now : String) (context : WriteContext) where
    pub put_frame : (e : MemoryEvent) (s : Store) → R s (put env now context e s).0
    unfolding put put_body done
    put_frame e s =
        guarded_frame s _ (put_body env now context e) (creates_frame now context "put" (e ∷ []) s)
          (λ s' a h. written_frame now context _ _ e h)

    pub idempotent_frame :
        (e : MemoryEvent) (s : Store) → R s (put_idempotent env now context e s).0
    unfolding put_idempotent put_operation as_created put_unless_found create_body
    idempotent_frame e s = go e.operation_id (validate_memory_for_storage env e)
      where
        plain : (r : Store × Result (Unit {0})) → R s r.0 → R s (as_created env now context r).0
        plain (after, ok _) k = k
        plain (after, err error) k = k

        after_query :
            (found : Result (Option MemoryEvent))
            → R s (put_unless_found env now context e s found).0
        after_query (err error) = f.same s
        after_query (ok (some found)) = f.same s
        after_query (ok none) =
            guarded_frame s _ (create_body env now context e)
              (creates_frame now context "put_idempotent" (e ∷ []) s)
              (λ s' a h. written_frame now context _ _ e h)

        go :
            (o : Option String) (checked : Result (Unit {0}))
            → R s (put_operation env now context e s o checked).0
        go none checked = plain (put env now context e s) (put_frame e s)
        go (some id) (err error) = f.same s
        go (some id) (ok _) = after_query (find_memory_by_operation_namespace env s e id)

    pub supersede_frame :
        (old_id new_id : String) (s : Store) → R s (supersede env now context old_id new_id s).0
    unfolding supersede supersede_body done
    supersede_frame old_id new_id s =
        guarded_frame s _ (supersede_body env now context old_id new_id)
          (action_frame now context "supersede" (some old_id) s)
          (λ s' a h.
            let (r, moved, rest) = >>=-eq-ok (supersede_in_transaction env _ old_id new_id) _ h in
            subst (R _) (first_eq rest) (f.supersede_step _ r.0 old_id new_id r.1 moved))

    pub delete_frame : (id : String) (s : Store) → R s (delete env now context id s).0
    unfolding delete delete_body done
    delete_frame id s =
        guarded_frame s _ (delete_body env now context id)
          (action_frame now context "delete" (some id) s)
          (λ s' a h. subst (R _) (first_eq h) (f.delete_step _ id))

    pub redact_frame : (id : String) (s : Store) → R s (redact env now context id s).0
    unfolding redact redact_body done
    redact_frame id s =
        guarded_frame s _ (redact_body env now context id)
          (action_frame now context "redact" (some id) s)
          (λ s' a h.
            let (r, moved, rest) = >>=-eq-ok (redact_in_transaction env _ now id) _ h in
            subst (R _) (first_eq rest) (f.redact_step _ r.0 now id r.1 moved))

    pub ring_frame :
        (id ring event_type : String) (s : Store)
        → R s (change_ring env now context id ring event_type s).0
    unfolding change_ring change_found ring_body
    ring_frame id ring event_type s = go (select_event env id s)
      where
        go :
            (found : Result (Option MemoryEvent))
            → R s (change_found env now context id ring event_type s found).0
        go (err error) = f.same s
        go (ok none) = f.same s
        go (ok (some event)) =
            guarded_frame s _ (ring_body env now context id ring event_type event)
              (action_frame now context "change_ring" (some id) s)
              (λ s' a h. written_frame now context _ _ _ h)
