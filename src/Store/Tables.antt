-- ===== src/Store/Tables.antt =====
-- The laws of the queries and statements on the tables.
use tree_ring_memory.Prelude.{
  ◌≤◌, String, ◌≡◌, refl, ap, inl, inr, true, false, none, some, List, [], ◌∷◌, ◌++◌, map, arith,
  ◌==◌, eq_iff, if◌then◌else◌, Bool-cases, is_some, length, filter, head?,
}
use tree_ring_memory.Event.{MemoryEvent}
use tree_ring_memory.Store.{
  FtsRow, rows_of, find_memory, exists_memory, replace_rows, upsert, delete_rows, fts_row, fts_of,
  delete_fts,
}

-- The primary key: an id has one row at most.
abbrev pub Unique : List MemoryEvent → Type 0
Unique memories = (id : String) → length (rows_of id memories) ≤ 1

-- Every row of `memories` has exactly its row of `memory_fts`, and there are no others.
abbrev pub Synced : List MemoryEvent → List FtsRow → Type 0
Synced memories fts = (id : String) → fts_of id fts ≡ map fts_row (rows_of id memories)

rows-replace :
    (e : MemoryEvent) (j : String) (ms : List MemoryEvent)
    → rows_of j (replace_rows e ms)
      ≡ (if e.id == j then map (λ m. e) (rows_of j ms) else rows_of j ms)
unfolding rows_of replace_rows filter
rows-replace e j [] = elim (Bool-cases (e.id == j)) [ inl p ↦ rw p | inr p ↦ rw p ]
rows-replace e j (m ∷ ms) =
    ground (arith, rows-replace e j ms, eq_iff m.id e.id, eq_iff m.id j, eq_iff e.id j)

one_row :
    (e : MemoryEvent) (rows : List MemoryEvent)
    → length rows ≤ 1
    → is_some (head? rows) ≡ true
    → map (λ m. e) rows ≡ e ∷ []
one_row e [] u h = cc
one_row e (m ∷ []) u h = refl
one_row e (m ∷ m' ∷ ms) u h = absurd (omega arith)

no_row : (rows : List MemoryEvent) → is_some (head? rows) ≡ false → rows ≡ []
no_row [] h = refl
no_row (m ∷ ms) h = cc

rows-add :
    (e : MemoryEvent) (j : String) (ms : List MemoryEvent)
    → rows_of j (ms ++ e ∷ []) ≡ rows_of j ms ++ (if e.id == j then e ∷ [] else [])
unfolding rows_of filter
rows-add e j [] = refl
rows-add e j (m ∷ ms) = ground (arith, rows-add e j ms)

append-nil' : (xs : List MemoryEvent) → xs ++ [] ≡ xs
append-nil' [] = refl
append-nil' (x ∷ xs) = ap (◌∷◌ x) (append-nil' xs)

-- After the write of an event its id has that row alone, and every other id the rows it had.
pub rows-upsert :
    (e : MemoryEvent) (j : String) (ms : List MemoryEvent)
    → Unique ms
    → rows_of j (upsert e ms) ≡ (if e.id == j then e ∷ [] else rows_of j ms)
unfolding upsert exists_memory find_memory
rows-upsert e j ms u = elim (Bool-cases (is_some (head? (rows_of e.id ms)))) [
  | inl old ↦ rw old (
      rw (rows-replace e j ms) (elim (Bool-cases (e.id == j)) [
        | inr p ↦ rw p
        | inl p ↦ rw p (one_row e (rows_of j ms) (u j) (rw ((eq_iff e.id j).0 p) at old))
      ]))
  | inr fresh ↦ rw fresh (
      rw (rows-add e j ms) (elim (Bool-cases (e.id == j)) [
        | inr p ↦ rw p (append-nil' (rows_of j ms))
        | inl p ↦ rw (p, no_row (rows_of j ms) (rw ((eq_iff e.id j).0 p) at fresh))
      ]))
]

pub rows-delete :
    (i j : String) (ms : List MemoryEvent)
    → rows_of j (delete_rows i ms) ≡ (if i == j then [] else rows_of j ms)
unfolding rows_of delete_rows filter
rows-delete i j [] = elim (Bool-cases (i == j)) [ inl p ↦ rw p | inr p ↦ rw p ]
rows-delete i j (m ∷ ms) =
    ground (arith, rows-delete i j ms, eq_iff m.id i, eq_iff m.id j, eq_iff i j)

pub fts-delete :
    (i j : String) (rows : List FtsRow)
    → fts_of j (delete_fts i rows) ≡ (if i == j then [] else fts_of j rows)
unfolding fts_of delete_fts filter
fts-delete i j [] = elim (Bool-cases (i == j)) [ inl p ↦ rw p | inr p ↦ rw p ]
fts-delete i j (r ∷ rows) =
    ground (arith, fts-delete i j rows, eq_iff r.id i, eq_iff r.id j, eq_iff i j)

fts-add :
    (r : FtsRow) (j : String) (rows : List FtsRow)
    → fts_of j (rows ++ r ∷ []) ≡ fts_of j rows ++ (if r.id == j then r ∷ [] else [])
unfolding fts_of filter
fts-add r j [] = refl
fts-add r j (r' ∷ rows) = ground (arith, fts-add r j rows)

fts-nil : (xs : List FtsRow) → xs ++ [] ≡ xs
fts-nil [] = refl
fts-nil (x ∷ xs) = ap (◌∷◌ x) (fts-nil xs)

-- The delete and insert of a write leave the id of the event with its new row alone.
pub fts-write :
    (e : MemoryEvent) (j : String) (rows : List FtsRow)
    → fts_of j (delete_fts e.id rows ++ fts_row e ∷ [])
      ≡ (if e.id == j then fts_row e ∷ [] else fts_of j rows)
unfolding fts_row
fts-write e j rows = rw (fts-add (fts_row e) j (delete_fts e.id rows)) (
    rw (fts-delete e.id j rows)
      (elim (Bool-cases (e.id == j)) [ inl p ↦ rw p | inr p ↦ rw p (fts-nil (fts_of j rows)) ]))

pub find-upsert :
    (e : MemoryEvent) (j : String) (ms : List MemoryEvent)
    → Unique ms
    → find_memory j (upsert e ms) ≡ (if e.id == j then some e else find_memory j ms)
unfolding find_memory
find-upsert e j ms u =
    rw (rows-upsert e j ms u) (elim (Bool-cases (e.id == j)) [ inl p ↦ rw p | inr p ↦ rw p ])

pub find-delete :
    (i j : String) (ms : List MemoryEvent)
    → find_memory j (delete_rows i ms) ≡ (if i == j then none else find_memory j ms)
unfolding find_memory
find-delete i j ms =
    rw (rows-delete i j ms) (elim (Bool-cases (i == j)) [ inl p ↦ rw p | inr p ↦ rw p ])

-- The row that a query for an id finds has that id.
pub find-id :
    (j : String) (ms : List MemoryEvent) {e : MemoryEvent} → find_memory j ms ≡ some e → e.id ≡ j
unfolding find_memory rows_of filter
find-id j [] h = cc
find-id j (m ∷ ms) {e} h = elim (Bool-cases (m.id == j)) [
  | inl p ↦ ground (arith, eq_iff m.id j)
  | inr p ↦ find-id j ms (rw p at h)
]

pub Unique-upsert : (e : MemoryEvent) (ms : List MemoryEvent) → Unique ms → Unique (upsert e ms)
Unique-upsert e ms u j =
    rw (rows-upsert e j ms u)
      (elim (Bool-cases (e.id == j)) [ inl p ↦ rw p (omega arith) | inr p ↦ rw p (u j) ])

pub Unique-delete : (i : String) (ms : List MemoryEvent) → Unique ms → Unique (delete_rows i ms)
Unique-delete i ms u j =
    rw (rows-delete i j ms)
      (elim (Bool-cases (i == j)) [ inl p ↦ rw p (omega arith) | inr p ↦ rw p (u j) ])

pub Synced-write :
    (e : MemoryEvent) (ms : List MemoryEvent) (rows : List FtsRow)
    → Unique ms
    → Synced ms rows
    → Synced (upsert e ms) (delete_fts e.id rows ++ fts_row e ∷ [])
Synced-write e ms rows u s j = rw (fts-write e j rows) (
    rw (rows-upsert e j ms u) (elim (Bool-cases (e.id == j)) [ inl p ↦ rw p | inr p ↦ rw p (s j) ]))

pub Synced-delete :
    (i : String) (ms : List MemoryEvent) (rows : List FtsRow)
    → Synced ms rows
    → Synced (delete_rows i ms) (delete_fts i rows)
Synced-delete i ms rows s j =
    rw (fts-delete i j rows)
      (rw (rows-delete i j ms) (elim (Bool-cases (i == j)) [ inl p ↦ rw p | inr p ↦ rw p (s j) ]))
