-- ===== src/Api/Maintain/Ordered.antt =====
-- The order of the rows that a query by time gives, and what filters leave of it.
use tree_ring_memory.Prelude.{
  ◌≡◌, refl, Bool, true, false, List, [], ◌∷◌, filter, if◌then◌else◌, inl, inr, Bool-cases, All,
  All-map, late_trans, lt_asym, sym, ap, ◌∙◌, suc, length,
}
use Prim.Native.String.{compare}
use text.Mathlib.Text.{is_lt}
use tree_ring_memory.Event.{MemoryEvent}
use tree_ring_memory.Api.Maintain.{insert_by_created, order_by_created}
use tree_ring_memory.Api.Invariant.Rebuilt.{All-insert}
use tree_ring_memory.Api.Maintain.Effects.{All-filter}

-- The first is no older than the second.
abbrev NotBefore : MemoryEvent → MemoryEvent → Type 0
NotBefore e m = is_lt (compare e.created_at m.created_at) ≡ false

abbrev IsSorted : List MemoryEvent → Type 0
IsSorted [] = Unit
IsSorted (m ∷ ms) = All (NotBefore m) ms × IsSorted ms

above :
    (e m : MemoryEvent) (ms : List MemoryEvent)
    → IsSorted (m ∷ ms)
    → NotBefore e m
    → All (NotBefore e) ms
above e m ms sorted late =
    All-map ms (λ x h. late_trans e.created_at m.created_at x.created_at late h) sorted.0

insert-IsSorted :
    (e : MemoryEvent) (ms : List MemoryEvent) → IsSorted ms → IsSorted (insert_by_created e ms)
unfolding insert_by_created
insert-IsSorted e [] sorted = (tt, tt)
insert-IsSorted e (m ∷ ms) sorted = elim (Bool-cases (is_lt (compare e.created_at m.created_at))) [
  | inl early ↦ rw early (
    All-insert (NotBefore m) e ms (lt_asym e.created_at m.created_at early) sorted.0,
    insert-IsSorted e ms sorted.1,
  )
  | inr late ↦ rw late ((late, above e m ms sorted late), sorted)
]

order-IsSorted : (ms : List MemoryEvent) → IsSorted (order_by_created ms)
unfolding order_by_created
order-IsSorted [] = tt
order-IsSorted (m ∷ ms) = insert-IsSorted m (order_by_created ms) (order-IsSorted ms)

insert-first :
    (e : MemoryEvent) (ms : List MemoryEvent)
    → All (NotBefore e) ms
    → insert_by_created e ms ≡ e ∷ ms
unfolding insert_by_created
insert-first e [] h = refl
insert-first e (m ∷ ms) h = rw h.0 refl

filter-insert :
    (p : MemoryEvent → Bool) (e : MemoryEvent) (ms : List MemoryEvent)
    → IsSorted ms
    → filter p (insert_by_created e ms)
      ≡ (if p e then insert_by_created e (filter p ms) else filter p ms)
unfolding filter insert_by_created
filter-insert p e [] sorted = refl
filter-insert p e (m ∷ ms) sorted = elim (Bool-cases (is_lt (compare e.created_at m.created_at))) [
  | inl early ↦ rw early (passed early (filter-insert p e ms sorted.1))
  | inr late ↦ rw late (placed late)
]
  where
    passed :
        is_lt (compare e.created_at m.created_at) ≡ true
        → filter p (insert_by_created e ms)
          ≡ (if p e then insert_by_created e (filter p ms) else filter p ms)
        → filter p (m ∷ insert_by_created e ms)
          ≡ (if p e then insert_by_created e (filter p (m ∷ ms)) else filter p (m ∷ ms))
    passed early rest = elim (Bool-cases (p m)) [
      | inl kept ↦ rw kept (elim (Bool-cases (p e)) [
        | inl mine ↦ rw mine (rw early (ap (λ xs. m ∷ xs) (rw mine at rest)))
        | inr other ↦ rw other (ap (λ xs. m ∷ xs) (rw other at rest))
      ])
      | inr dropped ↦ rw dropped rest
    ]

    placed :
        NotBefore e m
        → filter p (e ∷ m ∷ ms)
          ≡ (if p e then insert_by_created e (filter p (m ∷ ms)) else filter p (m ∷ ms))
    placed late = elim (Bool-cases (p e)) [
      | inl mine ↦ rw mine (
          sym (
            insert-first e (filter p (m ∷ ms))
              (All-filter (NotBefore e) p (m ∷ ms) (late, above e m ms sorted late))))
      | inr other ↦ rw other refl
    ]

-- Two filters may change places.
pub filter-swap :
    (p q : MemoryEvent → Bool) (ms : List MemoryEvent)
    → filter p (filter q ms) ≡ filter q (filter p ms)
unfolding filter
filter-swap p q [] = refl
filter-swap p q (m ∷ ms) = elim (Bool-cases (p m)) [
  | inl a ↦ rw a (elim (Bool-cases (q m)) [
    | inl b ↦ rw b (rw a (ap (λ xs. m ∷ xs) (filter-swap p q ms)))
    | inr b ↦ rw b (filter-swap p q ms)
  ])
  | inr a ↦ rw a (elim (Bool-cases (q m)) [
    | inl b ↦ rw b (rw a (filter-swap p q ms))
    | inr b ↦ rw b (filter-swap p q ms)
  ])
]

-- A filter may run before the sort or after it.
pub filter-order :
    (p : MemoryEvent → Bool) (ms : List MemoryEvent)
    → filter p (order_by_created ms) ≡ order_by_created (filter p ms)
unfolding filter order_by_created
filter-order p [] = refl
filter-order p (m ∷ ms) =
    filter-insert p m (order_by_created ms) (order-IsSorted ms)
    ∙ rw (filter-order p ms)
        (elim (Bool-cases (p m)) [ inl kept ↦ rw kept refl | inr dropped ↦ rw dropped refl ])

length-insert :
    (e : MemoryEvent) (ms : List MemoryEvent) → length (insert_by_created e ms) ≡ suc (length ms)
unfolding insert_by_created
length-insert e [] = refl
length-insert e (m ∷ ms) = elim (Bool-cases (is_lt (compare e.created_at m.created_at))) [
  | inl early ↦ rw early (ap suc (length-insert e ms))
  | inr late ↦ rw late refl
]

pub length-order : (ms : List MemoryEvent) → length (order_by_created ms) ≡ length ms
unfolding order_by_created
length-order [] = refl
length-order (m ∷ ms) = length-insert m (order_by_created ms) ∙ ap suc (length-order ms)
