-- ===== src/Api/Invariant/Rows.antt =====
-- Redaction and supersession inside a transaction keep the invariant.
use tree_ring_memory.Store.Write.{reread_event}
use tree_ring_memory.Prelude.{
  String, ◌≡◌, refl, inl, inr, Bool, true, ◌||◌, Option, none, some, List, [], ◌∷◌, arith, ◌==◌,
  eq_iff, if◌then◌else◌, Bool-cases, contains, contains-append, ok, sym, ap, subst, ◌∙◌, false, not,
  eq_refl, >>=-eq-ok, ok-injective, of_some,
}
use tree_ring_memory.Event.{MemoryEvent}
use tree_ring_memory.Event.Redact.{redact}
use tree_ring_memory.Event.Validate.{validate}
use tree_ring_memory.Externals.{Externals}
use tree_ring_memory.Legacy.Laws.{normalize_identity_valid}
use tree_ring_memory.Store.Write.Inversion.{put-eq-ok}
use tree_ring_memory.Store.{Store, find_memory}
use tree_ring_memory.Store.Tables.{find-id, find-upsert}
use tree_ring_memory.Store.Write.{
  is_sanitized_redaction, read_row, select_event, add_tombstone, redact_found,
  redact_in_transaction, put_in_transaction,
}
use tree_ring_memory.Api.Invariant.Steps.{IsConsistent, put-IsConsistent}

module _ (env : Externals) where
  pub read_row_valid :
      (o : Option MemoryEvent)
      → ((e : MemoryEvent) → o ≡ some e → validate e ≡ ok tt)
      → read_row env o ≡ ok o
  unfolding read_row
  read_row_valid none v = refl
  read_row_valid (some e) v = rw (normalize_identity_valid env e (v e refl))

  -- In consistent tables a query for an id returns the row as it stands.
  pub select-find :
      (s : Store) (id : String)
      → IsConsistent env s
      → select_event env id s ≡ ok (find_memory id s.memories)
  unfolding select_event
  select-find s id c = read_row_valid (find_memory id s.memories) (λ e h. (c.rows id e h).valid)

  abbrev pub redacted : String → MemoryEvent → MemoryEvent
  redacted now e = record (redact now e) { superseded_by = e.superseded_by }

  pub redacted-is_sanitized :
      (now : String) (e : MemoryEvent) → is_sanitized_redaction (redacted now e) ≡ true
  unfolding is_sanitized_redaction redact
  redacted-is_sanitized now e = refl

  pub contains-add_tombstone :
      (i j : String) (ts : List String)
      → contains (add_tombstone env i ts) j ≡ (if i == j then true else contains ts j)
  unfolding add_tombstone contains
  contains-add_tombstone i j ts = elim (Bool-cases (contains ts i)) [
    | inl old ↦
        rw old (elim (Bool-cases (i == j)) [
          | inl p ↦ rw p (rw ((eq_iff i j).0 p) at old)
          | inr p ↦ rw p
        ])
    | inr fresh ↦ rw fresh (rw (contains-append ts (i ∷ []) j) (last (contains ts j)))
  ]
    where
      last : (b : Bool) → (b || (i == j || contains [] j)) ≡ (if i == j then true else b)
      last b = ground arith

  tombstone-IsConsistent :
      (s : Store) (e : MemoryEvent)
      → IsConsistent env s
      → find_memory e.id s.memories ≡ some e
      → is_sanitized_redaction e ≡ true
      → IsConsistent env (record s { tombstones = add_tombstone env e.id s.tombstones })
  tombstone-IsConsistent s e c found clean = record {
    unique = c.unique;
    synced = c.synced;
    rows = λ id m h.
        let r = c.rows id m h in
        record {
          valid = r.valid;
          clean = r.clean;
          sealed =
              rw (contains-add_tombstone e.id m.id s.tombstones) (elim (Bool-cases (e.id == m.id)) [
                | inr p ↦ rw p r.sealed
                | inl p ↦
                    let at_id : find_memory m.id s.memories ≡ some e =
                      subst (λ (i : String). find_memory i s.memories ≡ some e)
                        ((eq_iff e.id m.id).0 p) found in
                    let same : find_memory m.id s.memories ≡ some m =
                      subst (λ (i : String). find_memory i s.memories ≡ some m)
                        (sym (find-id id s.memories h)) h in
                    rw p (
                      subst (λ (x : MemoryEvent). not (is_sanitized_redaction x) ≡ false)
                        (of_some (sym at_id ∙ same)) (rw clean refl))
              ]);
        };
  }

  pub redact-IsConsistent :
      (s : Store) (now memory_id : String) {s' : Store} {found : Bool}
      → IsConsistent env s
      → redact_in_transaction env s now memory_id ≡ ok (s', found)
      → IsConsistent env s'
  unfolding redact_in_transaction redact is_sanitized_redaction
  redact-IsConsistent s now memory_id {s'} {found} c h =
      go (find_memory memory_id s.memories) (rw (select-find s memory_id c) at h)
    where
      go :
          (o : Option MemoryEvent) → redact_found env s now o ≡ ok (s', found) → IsConsistent env s'
      go none g = subst (IsConsistent env) (ap (λ (p : Store × Bool). p.0) (ok-injective g)) c
      go (some e) g =
          let (s1, wrote, rest) =
            >>=-eq-ok (put_in_transaction env s (redacted now e))
              (λ (x : Store).
                ok (record x { tombstones = add_tombstone env e.id x.tombstones }, true))
              g in
          let w = put-eq-ok env s (redacted now e) wrote in
          let there : find_memory e.id s1.memories ≡ some (reread_event env (redacted now e)) =
            rw w.memories (
              rw (find-upsert (reread_event env (redacted now e)) e.id s.memories c.unique)
                (rw (eq_refl e.id) refl)) in
          subst (IsConsistent env) (ap (λ (p : Store × Bool). p.0) (ok-injective rest)) (
            tombstone-IsConsistent s1 (reread_event env (redacted now e))
              (put-IsConsistent env s (redacted now e) c wrote) there (redacted-is_sanitized now e))
