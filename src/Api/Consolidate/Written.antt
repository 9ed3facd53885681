-- ===== src/Api/Consolidate/Written.antt =====
-- Writing the outputs of a consolidation changes no row that a consolidation would consider.
use tree_ring_memory.Store.Write.{reread_event}
use tree_ring_memory.Prelude.{
  ℕ, String, ◌≡◌, refl, sym, ap, ◌∙◌, subst, true, false, Bool, some, List, [], ◌∷◌, ◌++◌, ◌==◌,
  eq_iff, if◌then◌else◌, filter, filter-append, All, All-map, Bool-cases, inl, inr, >>=-eq-ok,
  of_some, ok-injective, ok,
}
use tree_ring_memory.Event.{MemoryEvent}
use tree_ring_memory.Externals.{Externals}
use tree_ring_memory.Store.{Store, find_memory, exists_memory, replace_rows, upsert}
use tree_ring_memory.Store.Tables.{Unique, find-upsert}
use tree_ring_memory.Store.Write.{put_in_transaction}
use tree_ring_memory.Store.Write.Inversion.{put-eq-ok}
use tree_ring_memory.Api.Batch.{put_all}
use tree_ring_memory.Api.Invariant.Steps.{IsConsistent, put-IsConsistent}
use tree_ring_memory.Api.Invariant.Rebuilt.{All-found}

pub put_all-consolidations :
    (env : Externals) (es : List MemoryEvent) (s : Store) {s' : Store}
    → put_all env es s ≡ ok s'
    → s'.consolidations ≡ s.consolidations
unfolding put_all
put_all-consolidations env [] s h = ap (λ (x : Store). x.consolidations) (sym (ok-injective h))
put_all-consolidations env (e ∷ es) s h =
    let (w, wrote, more) = >>=-eq-ok (put_in_transaction env s e) _ h in
    put_all-consolidations env es w more ∙ (put-eq-ok env s e wrote).consolidations

module _ (p : MemoryEvent → Bool) where
  -- No row with the id satisfies the test.
  abbrev pub IsBlocked : String → List MemoryEvent → Type 0
  IsBlocked id ms = (m : MemoryEvent) → find_memory id ms ≡ some m → p m ≡ false

  filter-replace :
      (e : MemoryEvent) (ms : List MemoryEvent)
      → p e ≡ false
      → All (λ (m : MemoryEvent). (m.id == e.id) ≡ true → p m ≡ false) ms
      → filter p (replace_rows e ms) ≡ filter p ms
  unfolding filter replace_rows
  filter-replace e [] off blocked = refl
  filter-replace e (m ∷ ms) off blocked = elim (Bool-cases (m.id == e.id)) [
    | inl here ↦ rw here (rw off (rw (blocked.0 here) (filter-replace e ms off blocked.1)))
    | inr other ↦ rw other (kept (filter-replace e ms off blocked.1))
  ]
    where
      kept :
          filter p (replace_rows e ms) ≡ filter p ms
          → (if p m then m ∷ filter p (replace_rows e ms) else filter p (replace_rows e ms))
            ≡ (if p m then m ∷ filter p ms else filter p ms)
      kept ih = rw ih refl

  filter-upsert :
      (e : MemoryEvent) (ms : List MemoryEvent)
      → Unique ms
      → p e ≡ false
      → IsBlocked e.id ms
      → filter p (upsert e ms) ≡ filter p ms
  unfolding upsert
  filter-upsert e ms unique off blocked = elim (Bool-cases (exists_memory e.id ms)) [
    | inl there ↦
        rw there (filter-replace e ms off (All-map ms (λ m f. here m f) (All-found ms unique)))
    | inr gone ↦
        rw gone
          (rw (filter-append p ms (e ∷ [])) (unfold filter in rw off (nil_right (filter p ms))))
  ]
    where
      here : (m : MemoryEvent) → find_memory m.id ms ≡ some m → (m.id == e.id) ≡ true → p m ≡ false
      here m f same =
          blocked m
            (subst (λ (id : String). find_memory id ms ≡ some m) ((eq_iff m.id e.id).0 same) f)

      nil_right : (xs : List MemoryEvent) → xs ++ [] ≡ xs
      nil_right [] = refl
      nil_right (x ∷ xs) = ap (◌∷◌ x) (nil_right xs)

  -- Events that do not satisfy the test, with ids that no row that does has.
  pub filter-put_all :
      (env : Externals) (ids : ℕ → String) (es : List MemoryEvent) (s : Store) {s' : Store}
      → IsConsistent env s
      → All (λ (e : MemoryEvent). (p (reread_event env e) ≡ false) × ((n : ℕ) × (e.id ≡ ids n))) es
      → ((n : ℕ) → IsBlocked (ids n) s.memories)
      → put_all env es s ≡ ok s'
      → filter p s'.memories ≡ filter p s.memories
  unfolding put_all
  filter-put_all env ids [] s c off blocked h =
      ap (λ (x : Store). filter p x.memories) (sym (ok-injective h))
  filter-put_all env ids (e ∷ es) s c off blocked h =
      let (w, wrote, more) = >>=-eq-ok (put_in_transaction env s e) _ h in
      let written = put-eq-ok env s e wrote in
      filter-put_all env ids es w (put-IsConsistent env s e c wrote) off.1
        (λ n. rw written.memories (still n)) more
      ∙ ap (filter p) written.memories
      ∙ filter-upsert (reread_event env e) s.memories c.unique off.0.0
          (rw off.0.1.1 (blocked off.0.1.0))
    where
      still : (n : ℕ) → IsBlocked (ids n) (upsert (reread_event env e) s.memories)
      still n m f = elim (Bool-cases (e.id == ids n)) [
        | inl same ↦
            subst (λ (x : MemoryEvent). p x ≡ false)
              (of_some
                (rw (find-upsert (reread_event env e) (ids n) s.memories c.unique, same) at f))
              off.0.0
        | inr other ↦
            blocked n m
              (rw (find-upsert (reread_event env e) (ids n) s.memories c.unique, other) at f)
      ]
