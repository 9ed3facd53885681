-- ===== src/Consolidation/Best.antt =====
-- crates/tree-ring-memory-sqlite/src/lib.rs: the output that replaces an earlier one has the most
-- sources in common with it.
use tree_ring_memory.Prelude.{
  ℕ, ◌≤◌, ◌<◌, String, ◌≡◌, refl, sym, true, false, Bool, Bool-cases, ◌&&◌, ◌||◌, ◌⊎◌, inl, inr,
  Option, none, some, List, [], ◌∷◌, All, Any, ltb, eqb, if◌then◌else◌, arith, subst,
}
use tree_ring_memory.Event.{MemoryEvent}
use tree_ring_memory.Consolidation.Replacement.{
  link_targets, overlap, no_worse, best_of, best_consolidation_replacement,
}

module _ (targets : List String) where
  -- No output shares a target, or one of them shares as many as any other and more than none.
  abbrev pub IsBest : List MemoryEvent → Option MemoryEvent → Type 0
  IsBest es none = All (λ (e : MemoryEvent). overlap targets e ≡ 0) es
  IsBest es (some b) =
      Any (λ (e : MemoryEvent). b ≡ e) es
      × (0 < overlap targets b)
      × All (λ (e : MemoryEvent). overlap targets e ≤ overlap targets b) es

  -- The best of a candidate and the outputs that follow.
  record IsChosen (first : MemoryEvent) (es : List MemoryEvent) (r : Option MemoryEvent)
      : Type 0 where
    best : MemoryEvent
    chosen : r ≡ some best
    more : overlap targets first ≤ overlap targets best
    most : All (λ (e : MemoryEvent). overlap targets e ≤ overlap targets best) es
    one : (best ≡ first) ⊎ Any (λ (e : MemoryEvent). best ≡ e) es

  replaced : (n m : ℕ) (late : Bool) → (ltb 0 m && (ltb n m || eqb n m && late)) ≡ true → n ≤ m
  replaced n m late h = ground arith

  retained : (n m : ℕ) (late : Bool) → (ltb 0 m && (ltb n m || eqb n m && late)) ≡ false → m ≤ n
  retained n m late h = ground arith

  some-IsChosen :
      (b : MemoryEvent) (es : List MemoryEvent)
      → IsChosen b es (best_of targets (some (overlap targets b, b)) es)
  unfolding best_of no_worse
  some-IsChosen b [] = record {
    best = b;
    chosen = refl;
    more = omega arith;
    most = tt;
    one = inl refl;
  }
  some-IsChosen b (e ∷ es) = elim (Bool-cases better) [
    | inl p ↦
        let r = some-IsChosen e es in
        let up = replaced (overlap targets b) (overlap targets e) _ p in
        record {
          best = r.best;
          chosen = rw p r.chosen;
          more = omega (arith, up, r.more);
          most = (r.more, r.most);
          one = elim (r.one) [ inl same ↦ inr (inl same) | inr there ↦ inr (inr there) ];
        }
    | inr p ↦
        let r = some-IsChosen b es in
        let down = retained (overlap targets b) (overlap targets e) _ p in
        record {
          best = r.best;
          chosen = rw p r.chosen;
          more = r.more;
          most = (omega (arith, down, r.more), r.most);
          one = elim (r.one) [ inl same ↦ inl same | inr there ↦ inr (inr there) ];
        }
  ]
    where
      better : Bool
      better = ltb 0 (overlap targets e) && no_worse (overlap targets b, b) (overlap targets e, e)

  best_of-IsBest : (es : List MemoryEvent) → IsBest es (best_of targets none es)
  unfolding best_of
  best_of-IsBest [] = tt
  best_of-IsBest (e ∷ es) = split (ltb 0 (overlap targets e)) refl (best_of-IsBest es)
    where
      more : overlap targets e ≡ 0 → (r : Option MemoryEvent) → IsBest es r → IsBest (e ∷ es) r
      more z none h = (z, h)
      more z (some b) h = (inr h.0, h.1, (omega (arith, z), h.2))

      split :
          (shares : Bool)
          → ltb 0 (overlap targets e) ≡ shares
          → IsBest es (best_of targets none es)
          → IsBest
              (e ∷ es)
              (best_of targets (if shares then some (overlap targets e, e) else none) es)
      split false p ih = more (ground arith) (best_of targets none es) ih
      split true p ih =
          let r = some-IsChosen e es in
          subst (IsBest (e ∷ es)) (sym r.chosen) (r.one, ground (arith, r.more), (r.more, r.most))

-- The output that replaces an earlier one is one of the new outputs that shares at least one of its
-- memory links, and no new output shares more of them; where none is found, none shares any.
pub replacement-IsBest :
    (old : MemoryEvent) (outputs : List MemoryEvent)
    → IsBest (link_targets old.links) outputs (best_consolidation_replacement old outputs)
unfolding best_consolidation_replacement
replacement-IsBest old outputs = best_of-IsBest (link_targets old.links) outputs
