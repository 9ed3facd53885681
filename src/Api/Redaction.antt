-- ===== src/Api/Redaction.antt =====
-- What a redaction leaves of an event, and that it stays redacted.
use tree_ring_memory.Store.Write.{reread_event}
use tree_ring_memory.Prelude.{
  String, ◌≡◌, refl, sym, ap, subst, ◌∙◌, Bool, true, false, some, ◌==◌, eq_refl, if◌then◌else◌,
  contains, >>=-eq-ok, ok-injective, ok, inl, inr, Bool-cases,
}
use tree_ring_memory.Event.{MemoryEvent}
use tree_ring_memory.Event.Redact.{redact as redacted_event}
use tree_ring_memory.Externals.{Externals}
use tree_ring_memory.Store.{Store, find_memory, upsert}
use tree_ring_memory.Store.Tables.{find-upsert, find-id}
use tree_ring_memory.Store.Write.{
  put_in_transaction, is_sanitized_redaction, add_tombstone, redact_found, redact_in_transaction,
}
use tree_ring_memory.Store.Write.Inversion.{put-eq-ok}
use tree_ring_memory.Policy.{WriteContext, authorize_coordinator_action}
use tree_ring_memory.Api.{put, done, get, redact_body, redact}
use tree_ring_memory.Api.Invariant.Steps.{IsConsistent}
use tree_ring_memory.Api.Invariant.Rows.{
  select-find, redacted-is_sanitized, contains-add_tombstone, redact-IsConsistent, redacted,
}
use tree_ring_memory.Api.Invariant.Guarded.{action-OnlyAudit, audit-IsConsistent}
use tree_ring_memory.Api.Invariant.Single.{first_eq}
use tree_ring_memory.Api.Outcomes.{guarded-eq-ok}
use tree_ring_memory.Api.Roundtrips.{get-find, put-wrote}

module _ (env : Externals) (now : String) (context : WriteContext) where
  -- What the transaction of a redaction leaves of a row that is there.
  record IsRedacted (e : MemoryEvent) (s s' : Store) : Type 0 where
    memories : s'.memories ≡ upsert (reread_event env (redacted env now e)) s.memories
    tombstones : s'.tombstones ≡ add_tombstone env e.id s.tombstones

  IsRedacted-eq-ok :
      (s : Store) (e : MemoryEvent) (id : String) {s' : Store} {b : Bool}
      → IsConsistent env s
      → find_memory id s.memories ≡ some e
      → redact_in_transaction env s now id ≡ ok (s', b)
      → IsRedacted e s s'
  unfolding redact_in_transaction redact_found redacted_event
  IsRedacted-eq-ok s e id {s'} c there h =
      let found = rw (select-find env s id c) at h in
      let body = rw there at found in
      let (s1, wrote, rest) = >>=-eq-ok (put_in_transaction env s (redacted env now e)) _ body in
      let w = put-eq-ok env s (redacted env now e) wrote in
      subst (IsRedacted e s) (first_eq rest)
        (record { memories = w.memories; tombstones = ap (add_tombstone env e.id) w.tombstones })

  -- After a `redact` that succeeds on consistent tables where the id has a row, `get` returns for
  -- the id a sanitized event that keeps the id and the ring, for every other id what it returned
  -- before, and the id is tombstoned.
  pub get-redact :
      (id : String) (e : MemoryEvent) (s s' : Store)
      → IsConsistent env s
      → get env s id ≡ ok (some e)
      → redact env now context id s ≡ (s', ok tt)
      → (e' : MemoryEvent) × ((other : String)
          → get env s' other ≡ (if id == other then ok (some e') else get env s other))
        × (is_sanitized_redaction e' ≡ true)
        × (e'.id ≡ id)
        × (e'.ring ≡ e.ring)
        × (contains s'.tombstones id ≡ true)
  unfolding redact redact_body done redacted_event is_sanitized_redaction
  get-redact id e s s' c there h =
      let auth = authorize_coordinator_action env now context "redact" (some id) s in
      let a = action-OnlyAudit env now context "redact" (some id) s in
      let body = guarded-eq-ok s auth (redact_body env now context id) h in
      let (r, moved, rest) = >>=-eq-ok (redact_in_transaction env auth.1 now id) _ body in
      let ca = audit-IsConsistent env now context a c in
      let row : find_memory id s.memories ≡ some e =
        ok-injective (sym (get-find env now context s id c) ∙ there) in
      let row' : find_memory id auth.1.memories ≡ some e = rw a.memories row in
      let name = find-id id s.memories row in
      let c' : IsConsistent env s' =
        subst (IsConsistent env) (first_eq rest) (redact-IsConsistent env auth.1 now id ca moved) in
      let made : IsRedacted e auth.1 s' =
        subst (IsRedacted e auth.1) (first_eq rest) (IsRedacted-eq-ok auth.1 e id ca row' moved) in
      let found : (j : String)
          → find_memory j s'.memories ≡ (
              if e.id == j
              then some (reread_event env (redacted env now e))
              else find_memory j s.memories) =
        λ j. rw made.memories (
          rw (find-upsert (reread_event env (redacted env now e)) j auth.1.memories ca.unique)
            (rw a.memories refl)) in
      (
        reread_event env (redacted env now e),
        λ other.
            get-find env now context s' other c'
            ∙ (rw (found other) (
                rw name (elim (Bool-cases (id == other)) [
                  | inl here ↦ rw here refl
                  | inr apart ↦ rw apart (sym (get-find env now context s other c))
                ]))),
        redacted-is_sanitized env now e,
        name,
        refl,
        rw made.tombstones (
            rw (contains-add_tombstone env e.id id auth.1.tombstones)
              (rw name (rw (eq_refl id) refl))),
      )

  -- While an id is tombstoned, no `put` of an event with the id succeeds, unless the event holds
  -- nothing that redaction removes.
  pub tombstone_refuses :
      (e : MemoryEvent) (s s' : Store)
      → contains s.tombstones e.id ≡ true
      → is_sanitized_redaction e ≡ false
      → (put env now context e s ≡ (s', ok tt))
      → ⊥
  tombstone_refuses e s s' sealed raw h =
      let (before, a, wrote) = put-wrote env now context e s s' h in
      let w = put-eq-ok env before e wrote in
      cc (rw raw at (rw sealed at (rw a.tombstones at w.sealed)))
