-- ===== src/Api/Consolidate/Repeated.antt =====
-- What a second consolidation of the same rows finds: the candidates, and the record of the first.
use tree_ring_memory.Store.Write.{reread_event}
use tree_ring_memory.Prelude.{
  String, ◌≡◌, refl, sym, ap, ◌∙◌, true, false, Bool, none, some, List, [], ◌∷◌, ◌++◌, eq_refl,
  filter, filter-append, is_some, head?, Bool-cases, inl, inr, ◌&&◌,
}
use tree_ring_memory.Event.{MemoryEvent}
use Prim.Native.String.{compare}
use text.Mathlib.Text.{is_lt}
use tree_ring_memory.Externals.{Externals}
use tree_ring_memory.Prelude.Maps.{sort_by, insert_sorted}
use tree_ring_memory.Store.{ConsolidationRow}
use tree_ring_memory.Consolidation.{ConsolidationRequest, consolidation_candidate}
use tree_ring_memory.Consolidation.Plan.{ConsolidationOutput, candidates_of}
use tree_ring_memory.Consolidation.Outputs.{IsSummary}
use tree_ring_memory.Api.Maintain.{is_current, order_by_created}
use tree_ring_memory.Api.Maintain.Ordered.{filter-order, filter-swap}
use tree_ring_memory.Api.Consolidate.{of_period, ids_eq, find_consolidation}

ids_eq_refl : (ids : List String) → ids_eq ids ids ≡ true
unfolding ids_eq
ids_eq_refl [] = refl
ids_eq_refl (x ∷ xs) = rw (eq_refl x) (ids_eq_refl xs)

head-insert :
    {A : Type 0} (before : A → A → Bool) (x : A) (ys : List A)
    → is_some (head? (insert_sorted before x ys)) ≡ true
unfolding insert_sorted
head-insert before x [] = refl
head-insert before x (y ∷ ys) = elim (Bool-cases (before y x)) [
  | inl p ↦ rw p refl
  | inr p ↦ rw p refl
]

-- A sort without a first element has no element.
head-sort :
    {A : Type 0} (before : A → A → Bool) (xs : List A) → head? (sort_by before xs) ≡ none → xs ≡ []
unfolding sort_by
head-sort before [] h = refl
head-sort before (x ∷ xs) h = cc (sym (head-insert before x (sort_by before xs)) ∙ ap is_some h)

-- Where no record of the period and the sources was there, a new one is what is found.
pub find-new :
    (rows : List ConsolidationRow) (row : ConsolidationRow)
    → row.status ≡ "created"
    → find_consolidation row.period_type row.period_key row.source_memory_ids rows ≡ none
    → find_consolidation row.period_type row.period_key row.source_memory_ids (rows ++ row ∷ [])
      ≡ some row
unfolding find_consolidation sort_by
find-new rows row created absent =
    let none_there =
      head-sort (λ (a b : ConsolidationRow). is_lt (compare b.created_at a.created_at))
        (filter
          (λ (r : ConsolidationRow).
            of_period row.period_type row.period_key r
            && ids_eq r.source_memory_ids row.source_memory_ids)
          rows)
        absent in
    rw (filter-append _ rows (row ∷ [])) (
      rw none_there (
        unfold of_period filter in
        rw (eq_refl row.period_type)
          (rw (eq_refl row.period_key) (rw created (rw (ids_eq_refl row.source_memory_ids) refl)))))

module _ (env : Externals) (request : ConsolidationRequest) (period_key : String) where
  -- the test of a candidate
  abbrev pub candidate : MemoryEvent → Bool
  candidate e = consolidation_candidate env e request period_key

  pub summary_is_no_candidate :
      (o : ConsolidationOutput) → IsSummary env o → candidate (reread_event env o.memory) ≡ false
  unfolding consolidation_candidate
  summary_is_no_candidate o (event_type, source_type) =
      elim (Bool-cases (is_some o.memory.superseded_by)) [
        | inl there ↦ rw there refl
        | inr gone ↦ rw (gone, event_type, source_type) refl
      ]

  -- The candidates of a store depend on its candidate rows only.
  pub candidates-same :
      (ms ns : List MemoryEvent)
      → filter candidate ns ≡ filter candidate ms
      → candidates_of env (order_by_created (filter (is_current false) ns)) request period_key
        ≡ candidates_of env (order_by_created (filter (is_current false) ms)) request period_key
  unfolding candidates_of
  candidates-same ms ns same = ap (sort_by _) (
      ordered ns
      ∙ ap (λ (xs : List MemoryEvent). order_by_created (filter (is_current false) xs)) same
      ∙ sym (ordered ms))
    where
      ordered :
          (xs : List MemoryEvent)
          → filter candidate (order_by_created (filter (is_current false) xs))
            ≡ order_by_created (filter (is_current false) (filter candidate xs))
      ordered xs =
          filter-order candidate (filter (is_current false) xs)
          ∙ ap order_by_created (filter-swap candidate (is_current false) xs)
