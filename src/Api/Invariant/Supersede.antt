-- ===== src/Api/Invariant/Supersede.antt =====
-- Supersession inside a transaction keeps the invariant: it rewrites one column of one row.
use tree_ring_memory.Store.Write.{reread_event}
use tree_ring_memory.Prelude.{
  ◌≤◌, String, ◌≡◌, refl, sym, ap, subst, ◌∙◌, inl, inr, Bool, true, false, Option, none, some,
  List, [], ◌∷◌, arith, ◌==◌, eq_iff, Bool-cases, length, head?, >>=-eq-ok, ok-injective, ok, ◌++◌,
  any, any-append,
}
use tree_ring_memory.Event.{MemoryEvent}
use tree_ring_memory.Event.Validate.{validate, validate_partition}
use tree_ring_memory.Externals.{Externals}
use tree_ring_memory.Sensitivity.{check_or_raise, default_guard, SensitivityResult}
use tree_ring_memory.Sensitivity.Inspect.{looks_secret, inspect-secret}
use tree_ring_memory.Sensitivity.Detect.{holds_secret, public_texts, optional_text}
use tree_ring_memory.Store.{
  Store, rows_of, find_memory, exists_memory, replace_rows, upsert, fts_row,
}
use tree_ring_memory.Store.Tables.{Unique, rows-upsert, find-id, Unique-upsert}
use tree_ring_memory.Store.Write.{is_sanitized_redaction, supersede_found, supersede_in_transaction}
use tree_ring_memory.Api.Invariant.Steps.{reread-IsStorable, put-rows, IsConsistent}
use tree_ring_memory.Api.Invariant.Rows.{select-find}

module _ (env : Externals) where
  abbrev superseded : String → MemoryEvent → MemoryEvent
  superseded new_id e = record e { superseded_by = some new_id }

  validate-superseded :
      (new_id : String) (e : MemoryEvent) → validate (superseded new_id e) ≡ validate e
  unfolding validate validate_partition
  validate-superseded new_id e = refl

  abbrev Quiet : List String → Type 0
  Quiet texts = any (looks_secret env) texts ≡ false

  -- Replacing the end of a list by one that is as quiet.
  under :
      (xs : List String) (f g : List String)
      → (Quiet f → Quiet g)
      → Quiet (xs ++ f)
      → Quiet (xs ++ g)
  under xs f g k h =
      rw (any-append (looks_secret env) xs g) (elim (Bool-cases (any (looks_secret env) xs)) [
        | inl found ↦ cc (rw (any-append (looks_secret env) xs f, found) at h)
        | inr quiet ↦ rw quiet (k (rw (any-append (looks_secret env) xs f, quiet) at h))
      ])

  replaced :
      (o : Option String) (new_id : String) (rest : List String)
      → looks_secret env new_id ≡ false
      → Quiet (optional_text o ++ rest)
      → Quiet (optional_text (some new_id) ++ rest)
  unfolding optional_text any
  replaced none new_id rest q h = rw q h
  replaced (some old) new_id rest q h = elim (Bool-cases (looks_secret env old)) [
    | inl found ↦ cc (rw found at h)
    | inr quiet ↦ rw q (rw quiet at h)
  ]

  -- A new target that is no secret keeps an event free of secrets.
  superseded-clean :
      (new_id : String) (e : MemoryEvent)
      → looks_secret env new_id ≡ false
      → holds_secret env e ≡ false
      → holds_secret env (superseded new_id e) ≡ false
  unfolding holds_secret public_texts
  superseded-clean new_id e quiet h =
      under (e.id ∷ e.created_at ∷ e.updated_at ∷ []) _ _
        (under (optional_text e.project) _ _ (
          under (optional_text e.agent_profile) _ _ (
            under (optional_text e.workflow_id) _ _ (
              under (optional_text e.session_id) _ _ (
                under (optional_text e.operation_id) _ _ (
                  under
                    (e.scope ∷ e.ring ∷ e.event_type ∷ e.summary ∷ e.details ∷ e.source.source_type
                      ∷ e.source.ref_ ∷ e.source.quote ∷ [])
                    _ _
                    (under e.tags _ _ (
                      under (e.sensitivity ∷ e.retention ∷ []) _ _ (
                        under (optional_text e.expires_at) _ _ (
                          under e.supersedes _ _ (replaced e.superseded_by new_id _ quiet)))))))))))
        h

  checked_clean :
      (text : String) {r : SensitivityResult}
      → check_or_raise env default_guard text ≡ ok r
      → looks_secret env text ≡ false
  unfolding check_or_raise
  checked_clean text h = elim (Bool-cases (looks_secret env text)) [
    | inr quiet ↦ quiet
    | inl found ↦ cc (rw (inspect-secret env text found) at h)
  ]

  replace-upsert :
      (e : MemoryEvent) (ms : List MemoryEvent)
      → exists_memory e.id ms ≡ true
      → replace_rows e ms ≡ upsert e ms
  unfolding upsert
  replace-upsert e ms h = rw h

  single_row :
      (ms : List MemoryEvent) (id : String) (e : MemoryEvent)
      → Unique ms
      → find_memory id ms ≡ some e
      → rows_of id ms ≡ e ∷ []
  unfolding find_memory
  single_row ms id e u h = alone (rows_of id ms) (u id) h
    where
      alone : (rows : List MemoryEvent) → length rows ≤ 1 → head? rows ≡ some e → rows ≡ e ∷ []
      alone [] l g = cc
      alone (x ∷ []) l g = cc
      alone (x ∷ y ∷ rows) l g = absurd (omega arith)

  supersede_row-IsConsistent :
      (s : Store) (new_id old_id : String) (e : MemoryEvent)
      → IsConsistent env s
      → looks_secret env new_id ≡ false
      → find_memory old_id s.memories ≡ some e
      → IsConsistent env
          (record s { memories = replace_rows (reread_event env (superseded new_id e)) s.memories })
  supersede_row-IsConsistent s new_id old_id e c quiet found =
      let e' = reread_event env (superseded new_id e) in
      let here : find_memory e.id s.memories ≡ some e =
        subst (λ (i : String). find_memory i s.memories ≡ some e)
          (sym (find-id old_id s.memories found)) found in
      let stands : exists_memory e.id s.memories ≡ true = unfold exists_memory in rw here in
      let old = c.rows e.id e here in
      let same = replace-upsert e' s.memories stands in
      record {
        unique = rw same (Unique-upsert e' s.memories c.unique);
        synced = λ j. rw same (
            rw (rows-upsert e' j s.memories c.unique) (elim (Bool-cases (e.id == j)) [
              | inr p ↦ rw p (c.synced j)
              | inl p ↦ rw p (
                  c.synced j
                  ∙ (rw
                      (single_row s.memories j e c.unique (
                        subst (λ (i : String). find_memory i s.memories ≡ some e)
                          ((eq_iff e.id j).0 p) here))
                      (unfold fts_row in refl)))
            ]));
        rows = rw same (
            put-rows env s e' c (
              reread-IsStorable env s.tombstones (superseded new_id e) (record {
                valid = validate-superseded new_id e ∙ old.valid;
                clean = superseded-clean new_id e quiet old.clean;
                sealed = unfold is_sanitized_redaction in old.sealed;
              })));
      }

  pub supersede-IsConsistent :
      (s : Store) (old_id new_id : String) {s' : Store} {found : Bool}
      → IsConsistent env s
      → supersede_in_transaction env s old_id new_id ≡ ok (s', found)
      → IsConsistent env s'
  unfolding supersede_in_transaction
  supersede-IsConsistent s old_id new_id {s'} {found} c h =
      let (r, checked, rest) = >>=-eq-ok (check_or_raise env default_guard new_id) _ h in
      go (find_memory old_id s.memories) refl (checked_clean new_id checked)
        (ok-injective (rw (select-find env s old_id c) at rest))
    where
      go :
          (o : Option MemoryEvent)
          → find_memory old_id s.memories ≡ o
          → looks_secret env new_id ≡ false
          → supersede_found env s new_id o ≡ (s', found)
          → IsConsistent env s'
      go none e q g = subst (IsConsistent env) (ap (λ (p : Store × Bool). p.0) g) c
      go (some row) e q g =
          subst (IsConsistent env) (ap (λ (p : Store × Bool). p.0) g)
            (supersede_row-IsConsistent s new_id old_id row c q e)
