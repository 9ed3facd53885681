-- ===== src/Api/Protection/Creations.antt =====
-- What a worker creates leaves the rows that were there.
use tree_ring_memory.Store.Write.{reread_event}
use tree_ring_memory.Prelude.{
  String, ◌≡◌, sym, subst, ◌∙◌, inl, inr, Bool, true, false, Option, some, List, [], ◌∷◌, ◌==◌,
  eq_iff, Bool-cases, All, All-map, ok-injective, >>=-eq-ok, >>-eq-ok, Result, ok, err, none,
  Option-cases,
}
use tree_ring_memory.Event.{MemoryEvent}
use tree_ring_memory.Externals.{Externals}
use tree_ring_memory.Store.{Store, find_memory, exists_memory}
use tree_ring_memory.Store.Tables.{find-upsert}
use tree_ring_memory.Store.Write.{
  put_in_transaction, put_with_statements, prepare_memory_write, validate_memory_for_storage,
}
use tree_ring_memory.Store.Write.Inversion.{put-eq-ok}
use tree_ring_memory.Policy.{WriteContext, protected_target}
use tree_ring_memory.Policy.Decisions.{protected_target_iff}
use tree_ring_memory.Api.{
  settle, created, guarded, done, find_memory_by_operation_namespace, put_body, put, create_body,
  put_unless_found, as_created, put_operation, put_idempotent,
}
use tree_ring_memory.Api.Batch.{write_all, dox_check, put_many_with_dox_guard, write_body}
use tree_ring_memory.Api.Creations.{worker_batch, creates-none, creates-denied}
use tree_ring_memory.Api.Denials.{IsUnprivileged, denial-IsRefused}
use tree_ring_memory.Api.Invariant.Steps.{IsConsistent, put-IsConsistent}
use tree_ring_memory.Api.Invariant.Single.{first_eq, finish}
use tree_ring_memory.Api.Invariant.Many.{prepared_write}
use tree_ring_memory.Api.Protection.{IsKept, IsKept-refl, OnlyAudit-IsKept, settle-IsKept}

module _ (env : Externals) where
  -- A write of an id that a store did not have keeps the rows of that store.
  new_row-IsKept :
      (base s : Store) (e : MemoryEvent) {s' : Store}
      → IsConsistent env s
      → exists_memory e.id base.memories ≡ false
      → IsKept base s
      → put_in_transaction env s e ≡ ok s'
      → IsKept base s'
  new_row-IsKept base s e {s'} c fresh k wrote =
      let w = put-eq-ok env s e wrote in
      record {
        policy = w.policy ∙ k.policy;
        rows = λ id row h. elim (Bool-cases (e.id == id)) [
          | inl same ↦ absurd (taken id row same h)
          | inr other ↦ rw w.memories (
              rw (find-upsert (reread_event env e) id s.memories c.unique)
                (rw other (k.rows id row h)))
        ];
      }
    where
      taken :
          (id : String) (row : MemoryEvent)
          → (e.id == id) ≡ true
          → find_memory id base.memories ≡ some row
          → ⊥
      taken id row same h =
          let here : find_memory e.id base.memories ≡ some row =
            subst (λ (i : String). find_memory i base.memories ≡ some row)
              (sym ((eq_iff e.id id).0 same)) h in
          let stands : exists_memory e.id base.memories ≡ true = unfold exists_memory in rw here in
          cc (fresh, stands)

  write_all-IsKept :
      (guard : Option Bool) (events : List MemoryEvent) (base s : Store) {s' : Store}
      → IsConsistent env s
      → All (λ (e : MemoryEvent). exists_memory e.id base.memories ≡ false) events
      → IsKept base s
      → write_all env guard events s ≡ ok s'
      → IsKept base s'
  unfolding write_all
  write_all-IsKept guard [] base s c fresh k h = subst (IsKept base) (ok-injective h) k
  write_all-IsKept guard (e ∷ es) base s c fresh k h =
      let (checked, rest) = >>-eq-ok (dox_check env guard s e) _ h in
      let (m, ready, rest') = >>=-eq-ok (prepare_memory_write env s e) _ rest in
      let (w, wrote, more) = >>=-eq-ok (put_with_statements env m e) _ rest' in
      let one = prepared_write env s e ready wrote in
      write_all-IsKept guard es base w (put-IsConsistent env s e c one) fresh.1
        (new_row-IsKept base s e c fresh.0 k one) more

  module _ (now : String) (context : WriteContext) where
    pub many-IsKept :
        (events : List MemoryEvent) (guard : Option Bool) (s : Store)
        → IsConsistent env s
        → IsUnprivileged env now context s
        → IsKept s (put_many_with_dox_guard env now context events guard s).0
    unfolding write_body
    many-IsKept events guard s c u = elim (worker_batch env now context s events guard u) [
      | inr (other, refused) ↦ OnlyAudit-IsKept refused.kept
      | inl (own, same) ↦ rw same (
          settle-IsKept s (write_body env now context guard events s) (λ s' a h.
            let (w, wrote, rest) = >>=-eq-ok (write_all env guard events s) _ h in
            subst (IsKept s) (first_eq rest) (
              write_all-IsKept guard events s s c (All-map events (λ e o. o.fresh) own.0)
                (IsKept-refl s) wrote)))
    ]

    -- The write of one event by a transaction that was allowed.
    single-IsKept :
        {A : Type 0} (a : A) (e : MemoryEvent) (s : Store)
        → IsConsistent env s
        → protected_target context s [] (e ∷ []) ≡ none
        → IsKept s (settle s (finish env now context a (put_in_transaction env s e))).0
    single-IsKept a e s c free = settle-IsKept s _ (λ s' b h.
        let (w, wrote, rest) = >>=-eq-ok (put_in_transaction env s e) _ h in
        let own = (protected_target_iff context s [] (e ∷ [])).0 free in
        subst (IsKept s) (first_eq rest)
          (new_row-IsKept s s e c own.0.0.fresh (IsKept-refl s) wrote))

    pub put-IsKept :
        (e : MemoryEvent) (s : Store)
        → IsConsistent env s
        → IsUnprivileged env now context s
        → IsKept s (put env now context e s).0
    unfolding put
    put-IsKept e s c u = elim (Option-cases (protected_target context s [] (e ∷ []))) [
      | inl free ↦
          rw (creates-none env now context "put" (e ∷ []) s free)
            (unfold guarded put_body done in single-IsKept tt e s c free)
      | inr (target, found) ↦
          OnlyAudit-IsKept
            (denial-IsRefused env now context "put" s _ (put_body env now context e)
              (creates-denied env now context "put" target (e ∷ []) s u found)).kept
    ]

    pub idempotent-IsKept :
        (e : MemoryEvent) (s : Store)
        → IsConsistent env s
        → IsUnprivileged env now context s
        → IsKept s (put_idempotent env now context e s).0
    unfolding put_idempotent put_operation as_created put_unless_found
    idempotent-IsKept e s c u = go e.operation_id (validate_memory_for_storage env e)
      where
        plain :
            (r : Store × Result (Unit {0}))
            → IsKept s r.0
            → IsKept s (as_created env now context r).0
        plain (after, ok _) k = k
        plain (after, err error) k = k

        create : IsKept s (put_unless_found env now context e s (ok none)).0
        create = elim (Option-cases (protected_target context s [] (e ∷ []))) [
          | inl free ↦
              rw (creates-none env now context "put_idempotent" (e ∷ []) s free)
                (unfold guarded create_body in single-IsKept created e s c free)
          | inr (target, found) ↦
              OnlyAudit-IsKept
                (denial-IsRefused env now context "put_idempotent" s _
                  (create_body env now context e)
                  (creates-denied env now context "put_idempotent" target (e ∷ []) s u found)).kept
        ]

        after_query :
            (found : Result (Option MemoryEvent))
            → IsKept s (put_unless_found env now context e s found).0
        after_query (err error) = IsKept-refl s
        after_query (ok (some found)) = IsKept-refl s
        after_query (ok none) = create

        go :
            (o : Option String) (checked : Result (Unit {0}))
            → IsKept s (put_operation env now context e s o checked).0
        go none checked = plain (put env now context e s) (put-IsKept e s c u)
        go (some id) (err error) = IsKept-refl s
        go (some id) (ok _) = after_query (find_memory_by_operation_namespace env s e id)
