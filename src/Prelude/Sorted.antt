-- ===== src/Prelude/Sorted.antt =====
-- What the stable sort of a slice gives.
use Prim.Native.Nat.{ℕ, zero, suc}
use mathlib.Core.Path.{◌≡◌}
use mathlib.Core.Logic.{inl, inr}
use mathlib.Core.Bool.{Bool, true, false}
use mathlib.Core.List.{List, [], ◌∷◌}
use tree_ring_memory.Prelude.Tests.{Bool-cases}
use tree_ring_memory.Prelude.Lists.{All, take}
use tree_ring_memory.Prelude.Maps.{insert_sorted, sort_by}

module _ {A : Type 0} (before : A → A → Bool) where
  -- the element is not before the first one of the list
  abbrev pub IsNext : A → List A → Type 0
  IsNext x [] = Unit
  IsNext x (y ∷ ys) = before y x ≡ false

  -- No element is before the one that stands in front of it.
  abbrev pub IsSorted : List A → Type 0
  IsSorted [] = Unit
  IsSorted (x ∷ xs) = IsNext x xs × IsSorted xs

  insert-IsSorted :
      (asym : (a b : A) → before a b ≡ true → before b a ≡ false) (x : A) (ys : List A)
      → IsSorted ys
      → IsSorted (insert_sorted before x ys)
  unfolding insert_sorted
  insert-IsSorted asym x [] h = (tt, tt)
  insert-IsSorted asym x (y ∷ ys) h = elim (Bool-cases (before y x)) [
    | inl early ↦ rw early (next early ys h.0, insert-IsSorted asym x ys h.1)
    | inr late ↦ rw late (late, h)
  ]
    where
      next : before y x ≡ true → (zs : List A) → IsNext y zs → IsNext y (insert_sorted before x zs)
      next early [] n = asym y x early
      next early (z ∷ zs) n = elim (Bool-cases (before z x)) [
        | inl p ↦ rw p n
        | inr p ↦ rw p (asym y x early)
      ]

  pub sort-IsSorted :
      (asym : (a b : A) → before a b ≡ true → before b a ≡ false) (xs : List A)
      → IsSorted (sort_by before xs)
  unfolding sort_by
  sort-IsSorted asym [] = tt
  sort-IsSorted asym (x ∷ xs) = insert-IsSorted asym x _ (sort-IsSorted asym xs)

  pub take-IsSorted : (n : ℕ) (xs : List A) → IsSorted xs → IsSorted (take n xs)
  unfolding take
  take-IsSorted zero xs h = tt
  take-IsSorted (suc n) [] h = tt
  take-IsSorted (suc n) (x ∷ xs) h = (next n xs h.0, take-IsSorted n xs h.1)
    where
      next : (m : ℕ) (ys : List A) → IsNext x ys → IsNext x (take m ys)
      next zero ys i = tt
      next (suc m) [] i = tt
      next (suc m) (y ∷ ys) i = i

module _ {A : Type 0} (before : A → A → Bool) (P : A → Type 0) where
  insert-All : (x : A) (ys : List A) → P x → All P ys → All P (insert_sorted before x ys)
  unfolding insert_sorted
  insert-All x [] p h = (p, tt)
  insert-All x (y ∷ ys) p h = elim (Bool-cases (before y x)) [
    | inl early ↦ rw early (h.0, insert-All x ys p h.1)
    | inr late ↦ rw late (p, h)
  ]

  pub sort-All : (xs : List A) → All P xs → All P (sort_by before xs)
  unfolding sort_by
  sort-All [] h = tt
  sort-All (x ∷ xs) h = insert-All x _ h.0 (sort-All xs h.1)
