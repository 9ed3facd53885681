-- ===== src/Api/Roundtrips.antt =====
-- Reading back what was written, redacted and deleted.
use tree_ring_memory.Store.Write.{reread_event}
use tree_ring_memory.Prelude.{
  String, ◌≡◌, refl, sym, ap, subst, ◌∙◌, false, none, some, [], ◌∷◌, ◌==◌, eq_refl, if◌then◌else◌,
  contains, contains-filter, >>=-eq-ok, ok, inl, inr, Bool-cases,
}
use tree_ring_memory.Event.{MemoryEvent}
use tree_ring_memory.Externals.{Externals}
use tree_ring_memory.Store.{Store, find_memory}
use tree_ring_memory.Store.Tables.{find-delete, find-upsert}
use tree_ring_memory.Store.Write.{put_in_transaction, delete_in_transaction}
use tree_ring_memory.Store.Write.Inversion.{put-eq-ok}
use tree_ring_memory.Policy.{WriteContext, authorize_coordinator_action, authorize_event_creates}
use tree_ring_memory.Api.{put, done, get, put_body, delete_body, delete}
use tree_ring_memory.Api.Invariant.Steps.{IsConsistent, delete-IsConsistent, put-IsConsistent}
use tree_ring_memory.Api.Invariant.Rows.{select-find}
use tree_ring_memory.Api.Invariant.Guarded.{
  OnlyAudit, action-OnlyAudit, creates-OnlyAudit, audit-IsConsistent,
}
use tree_ring_memory.Api.Invariant.Single.{first_eq}
use tree_ring_memory.Api.Outcomes.{guarded-eq-ok}

module _ (env : Externals) (now : String) (context : WriteContext) where
  pub get-find :
      (s : Store) (id : String) → IsConsistent env s → get env s id ≡ ok (find_memory id s.memories)
  unfolding get
  get-find s id c = select-find env s id c

  pub put-wrote :
      (e : MemoryEvent) (s s' : Store)
      → put env now context e s ≡ (s', ok tt)
      → (before : Store) × OnlyAudit s before × (put_in_transaction env before e ≡ ok s')
  unfolding put put_body done
  put-wrote e s s' h =
      let auth = authorize_event_creates env now context "put" (e ∷ []) s in
      let body = guarded-eq-ok s auth (put_body env now context e) h in
      let (w, wrote, rest) = >>=-eq-ok (put_in_transaction env auth.1 e) _ body in
      (auth.1, creates-OnlyAudit env now context "put" (e ∷ []) s, wrote ∙ ap ok (first_eq rest))

  -- After a `put` that succeeds on consistent tables, `get` returns for the id the event with every
  -- field as it was put, but for its two scores, which are what serde_json reads back of the numbers
  -- it printed, and for every other id what it returned before.
  pub get-put :
      (e : MemoryEvent) (s s' : Store)
      → IsConsistent env s
      → put env now context e s ≡ (s', ok tt)
      → (id : String)
      → get env s' id ≡ (if e.id == id then ok (some (reread_event env e)) else get env s id)
  get-put e s s' c h id =
      let (before, a, wrote) = put-wrote e s s' h in
      let cb = audit-IsConsistent env now context a c in
      let c' = put-IsConsistent env before e cb wrote in
      let w = put-eq-ok env before e wrote in
      let found : find_memory id s'.memories
          ≡ (if e.id == id then some (reread_event env e) else find_memory id s.memories) =
        rw w.memories (
          rw (find-upsert (reread_event env e) id before.memories cb.unique)
            (rw a.memories refl)) in
      get-find s' id c'
      ∙ (rw found (elim (Bool-cases (e.id == id)) [
        | inl here ↦ rw here refl
        | inr other ↦ rw other (sym (get-find s id c))
      ]))

  -- After a `delete` that succeeds on consistent tables, `get` finds nothing for its id, and for
  -- every other id what it found before; and the id is no longer tombstoned.
  pub get-delete :
      (id : String) (s s' : Store)
      → IsConsistent env s
      → delete env now context id s ≡ (s', ok tt)
      → ((other : String) → get env s' other ≡ (if id == other then ok none else get env s other))
        × (contains s'.tombstones id ≡ false)
  unfolding delete delete_body done
  get-delete id s s' c h =
      let auth = authorize_coordinator_action env now context "delete" (some id) s in
      let a = action-OnlyAudit env now context "delete" (some id) s in
      let body = guarded-eq-ok s auth (delete_body env now context id) h in
      let same : (delete_in_transaction env auth.1 id).0 ≡ s' = first_eq body in
      let c' : IsConsistent env s' =
        subst (IsConsistent env) same
          (delete-IsConsistent env auth.1 id (audit-IsConsistent env now context a c)) in
      let found : (j : String)
          → find_memory j s'.memories ≡ (if id == j then none else find_memory j s.memories) =
        λ j.
          subst
            (λ (x : Store).
              find_memory j x.memories ≡ (if id == j then none else find_memory j s.memories))
            same
            (unfold delete_in_transaction in
              rw (find-delete id j auth.1.memories) (rw a.memories refl)) in
      (
        λ other.
            get-find s' other c'
            ∙ (rw (found other) (elim (Bool-cases (id == other)) [
              | inl here ↦ rw here refl
              | inr apart ↦ rw apart (sym (get-find s other c))
            ])),
        subst (λ (x : Store). contains x.tombstones id ≡ false) same
            (unfold delete_in_transaction in
              rw (contains-filter auth.1.tombstones id id) (rw (eq_refl id) refl)),
      )
