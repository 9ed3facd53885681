-- ===== src/Consolidation/Replacement.antt =====
-- crates/tree-ring-memory-sqlite/src/lib.rs: which new output of a forced consolidation supersedes
-- each output of an earlier one.
use tree_ring_memory.Prelude.{
  ℕ, zero, suc, ◌%◌, String, Bool, not, ◌&&◌, ◌||◌, Option, none, some, List, [], ◌∷◌, ◌==◌, ltb,
  eqb, if◌then◌else◌, filter, length, contains,
}
use Prim.Native.String.{compare}
use text.Mathlib.Text.{is_lt}
use tree_ring_memory.Event.{MemoryEvent, MemoryLink}

-- `memory_link_targets`, each target once
unfoldable pub link_targets : List MemoryLink → List String
unfolding contains
link_targets [] = []
link_targets (link ∷ links) =
    let rest = link_targets links in
    if link.link_type == "memory" && not (contains rest link.target)
    then link.target ∷ rest
    else rest

-- `old_targets.intersection(&candidate_targets).count()`
unfoldable pub overlap : List String → MemoryEvent → ℕ
unfolding link_targets filter
overlap old_targets candidate =
    length
      (filter (λ (target : String). contains (link_targets candidate.links) target) old_targets)

-- the second key is no less than the first: more overlap, or as much and an id that is no greater
unfoldable pub no_worse : ℕ × MemoryEvent → ℕ × MemoryEvent → Bool
no_worse best candidate =
    ltb best.0 candidate.0
    || eqb best.0 candidate.0 && not (is_lt (compare best.1.id candidate.1.id))

-- `max_by_key`: the last of the greatest, from the best candidate so far
unfoldable pub best_of :
    List String → Option (ℕ × MemoryEvent) → List MemoryEvent → Option MemoryEvent
unfolding overlap no_worse
best_of old_targets none [] = none
best_of old_targets (some best) [] = some best.1
best_of old_targets none (e ∷ es) =
    let count = overlap old_targets e in
    best_of old_targets (if ltb 0 count then some (count, e) else none) es
best_of old_targets (some best) (e ∷ es) =
    let count = overlap old_targets e in
    best_of old_targets
      (some (if ltb 0 count && no_worse best (count, e) then (count, e) else best)) es

unfoldable pub best_consolidation_replacement : MemoryEvent → List MemoryEvent → Option MemoryEvent
unfolding link_targets best_of
best_consolidation_replacement old new_outputs = best_of (link_targets old.links) none new_outputs

unfoldable pub unwrap_or : MemoryEvent → Option MemoryEvent → MemoryEvent
unwrap_or e none = e
unwrap_or e (some found) = found

-- `new_outputs[index]`
unfoldable pub nth_or : MemoryEvent → ℕ → List MemoryEvent → MemoryEvent
nth_or e n [] = e
nth_or e zero (x ∷ xs) = x
nth_or e (suc n) (x ∷ xs) = nth_or e n xs

-- the loop of `consolidation_supersession_pairs`, where the new outputs are `first` and `rest`
unfoldable pub pairs_from :
    ℕ → List MemoryEvent → MemoryEvent → List MemoryEvent → List (String × String)
unfolding best_consolidation_replacement nth_or unwrap_or
pairs_from index [] first rest = []
pairs_from index (old ∷ olds) first rest =
    (
      old.id,
      (unwrap_or (nth_or first (index % length (first ∷ rest)) (first ∷ rest))
          (best_consolidation_replacement old (first ∷ rest))).id,
    )
    ∷ pairs_from (suc index) olds first rest

unfoldable pub consolidation_supersession_pairs :
    List MemoryEvent → List MemoryEvent → List (String × String)
unfolding pairs_from
consolidation_supersession_pairs previous [] = []
consolidation_supersession_pairs previous (first ∷ rest) = pairs_from 0 previous first rest
