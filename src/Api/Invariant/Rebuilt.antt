-- ===== src/Api/Invariant/Rebuilt.antt =====
-- The rebuild of the search index, and `maintain`, keep the invariant.
use tree_ring_memory.Prelude.{
  ◌≤◌, String, ◌≡◌, refl, ◌∙◌, inl, inr, List, [], ◌∷◌, map, arith, ◌==◌, Bool-cases, length,
  filter, ap, some, eq_refl, head?, All, All-map, ok,
}
use Prim.Native.String.{compare}
use text.Mathlib.Text.{is_lt}
use tree_ring_memory.Event.{MemoryEvent}
use tree_ring_memory.Externals.{Externals}
use tree_ring_memory.Event.Validate.{validate}
use tree_ring_memory.Legacy.Laws.{normalize_identity_valid}
use tree_ring_memory.Api.Invariant.Steps.{IsConsistent}
use tree_ring_memory.Store.{rows_of, fts_row, fts_of, Store, find_memory}
use tree_ring_memory.Store.Write.{event_from_row}
use tree_ring_memory.Store.Tables.{Unique}
use tree_ring_memory.Api.Maintain.{order_by_created, insert_by_created, collect_rows, rebuild_fts}

fts-map :
    (id : String) (es : List MemoryEvent) → fts_of id (map fts_row es) ≡ map fts_row (rows_of id es)
unfolding fts_of rows_of filter fts_row
fts-map id [] = refl
fts-map id (e ∷ es) = elim (Bool-cases (e.id == id)) [
  | inl p ↦ rw (p, fts-map id es)
  | inr p ↦ rw (p, fts-map id es)
]

rows-insert :
    (id : String) (e : MemoryEvent) (ms : List MemoryEvent)
    → length (rows_of id (e ∷ ms)) ≤ 1
    → rows_of id (insert_by_created e ms) ≡ rows_of id (e ∷ ms)
unfolding rows_of filter insert_by_created
rows-insert id e [] u = refl
rows-insert id e (m ∷ ms) u = elim (Bool-cases (is_lt (compare e.created_at m.created_at))) [
  | inr late ↦ rw late refl
  | inl early ↦ rw early (ground (arith, rows-insert id e ms))
]

Unique-tail : (e : MemoryEvent) (ms : List MemoryEvent) → Unique (e ∷ ms) → Unique ms
unfolding rows_of filter
Unique-tail e ms u id = ground (arith, u id)

-- Ordering rows with unique ids leaves what each query finds.
pub rows-order :
    (id : String) (ms : List MemoryEvent)
    → Unique ms
    → rows_of id (order_by_created ms) ≡ rows_of id ms
unfolding order_by_created
rows-order id [] u = refl
rows-order id (m ∷ ms) u =
    let rest = rows-order id ms (Unique-tail m ms u) in
    let same = rows-cons rest in rows-insert id m (order_by_created ms) (rw same (u id)) ∙ same
  where
    rows-cons :
        rows_of id (order_by_created ms) ≡ rows_of id ms
        → rows_of id (m ∷ order_by_created ms) ≡ rows_of id (m ∷ ms)
    rows-cons h = unfold rows_of filter in rw h refl

found_later :
    (e m : MemoryEvent) (ms : List MemoryEvent)
    → Unique (m ∷ ms)
    → find_memory e.id ms ≡ some e
    → find_memory e.id (m ∷ ms) ≡ some e
unfolding find_memory
found_later e m ms u h = later (rows_of e.id ms) refl
  where
    twice : (rows : List MemoryEvent) → head? rows ≡ some e → length (m ∷ rows) ≤ 1 → ⊥
    twice [] f l = cc
    twice (x ∷ xs) f l = omega arith

    later :
        (rows : List MemoryEvent) → rows_of e.id ms ≡ rows → head? (rows_of e.id (m ∷ ms)) ≡ some e
    later rows r =
        unfold rows_of filter in
        (elim (Bool-cases (m.id == e.id)) [
          | inr other ↦ rw other h
          | inl same ↦ absurd (twice rows (rw r at h) (rw r at (rw same at (u e.id))))
        ])

-- Where the ids are unique, the query for the id of a row finds that row.
pub All-found :
    (ms : List MemoryEvent) → Unique ms → All (λ (e : MemoryEvent). find_memory e.id ms ≡ some e) ms
All-found [] u = tt
All-found (m ∷ ms) u = (
  unfold find_memory rows_of filter in rw (eq_refl m.id) refl,
  All-map ms (λ e f. found_later e m ms u f) (All-found ms (Unique-tail m ms u)),
)

module _ (P : MemoryEvent → Type 0) where
  pub All-insert :
      (e : MemoryEvent) (ms : List MemoryEvent) → P e → All P ms → All P (insert_by_created e ms)
  unfolding insert_by_created
  All-insert e [] p h = (p, tt)
  All-insert e (m ∷ ms) p h = elim (Bool-cases (is_lt (compare e.created_at m.created_at))) [
    | inl early ↦ rw early (h.0, All-insert e ms p h.1)
    | inr late ↦ rw late (p, h)
  ]

  pub All-order : (ms : List MemoryEvent) → All P ms → All P (order_by_created ms)
  unfolding order_by_created
  All-order [] h = tt
  All-order (m ∷ ms) h = All-insert m (order_by_created ms) h.0 (All-order ms h.1)

module _ (env : Externals) where
  pub collect_valid :
      (es : List MemoryEvent)
      → All (λ (e : MemoryEvent). validate e ≡ ok tt) es
      → collect_rows env es ≡ ok es
  unfolding collect_rows event_from_row
  collect_valid [] v = refl
  collect_valid (e ∷ es) v = rw (normalize_identity_valid env e v.0, collect_valid es v.1) refl

  pub rows_valid :
      (s : Store) → IsConsistent env s → All (λ (e : MemoryEvent). validate e ≡ ok tt) s.memories
  rows_valid s c =
      All-map s.memories (λ e f. (c.rows e.id e f).valid) (All-found s.memories c.unique)

  -- On consistent tables the rebuild succeeds, and gives each row its entry.
  pub rebuild-IsConsistent :
      (s : Store)
      → IsConsistent env s
      → (s' : Store) × (rebuild_fts env s ≡ ok s') × IsConsistent env s'
  unfolding rebuild_fts
  rebuild-IsConsistent s c = (
    record s { fts = map fts_row (order_by_created s.memories) },
    rw (collect_valid (order_by_created s.memories) (All-order _ s.memories (rows_valid s c))) refl,
    record {
      unique = c.unique;
      synced = λ id.
          fts-map id (order_by_created s.memories)
          ∙ ap (map fts_row) (rows-order id s.memories c.unique);
      rows = c.rows;
    },
  )
