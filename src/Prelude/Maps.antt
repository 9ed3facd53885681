-- ===== src/Prelude/Maps.antt =====
-- `BTreeMap` as the list of its entries in the order of the keys, and the stable sorts of slices.
use Prim.Native.Nat.{Ordering}
use mathlib.Core.Bool.{Bool}
use mathlib.Core.List.{List, [], ◌∷◌}
use mathlib.Core.Option.{Option, none, some}
use tree_ring_memory.Prelude.Tests.{if◌then◌else◌}

module _ {ℓ κ} {K : Type ℓ} {V : Type κ} (compare : K → K → Ordering) where
  -- `map.entry(key)`, with the value set to `f` of the one that was there
  unfoldable pub entry_set : K → (Option V → V) → List (K × V) → List (K × V)
  entry_set k f [] = (k, f none) ∷ []
  entry_set k f ((j, v) ∷ m) = elim (compare k j) [
    | Ordering.lt ↦ (k, f none) ∷ (j, v) ∷ m
    | Ordering.eq ↦ (j, f (some v)) ∷ m
    | Ordering.gt ↦ (j, v) ∷ entry_set k f m
  ]

module _ {ℓ} {A : Type ℓ} (before : A → A → Bool) where
  -- in front of the first element that is not before the new one
  unfoldable pub insert_sorted : A → List A → List A
  insert_sorted x [] = x ∷ []
  insert_sorted x (y ∷ ys) =
      let rest = y ∷ insert_sorted x ys in if before y x then rest else x ∷ y ∷ ys

  -- `slice.sort_by(…)`: equal elements keep their order
  unfoldable pub sort_by : List A → List A
  unfolding insert_sorted
  sort_by [] = []
  sort_by (x ∷ xs) = insert_sorted x (sort_by xs)
