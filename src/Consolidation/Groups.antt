-- ===== src/Consolidation/Groups.antt =====
-- The groups of a consolidation: each has the candidates of its key, and none is lost.
use tree_ring_memory.Prelude.{
  ℕ, suc, ◌+◌, String, ◌≡◌, refl, ap, true, Option, none, some, List, [], ◌∷◌, ◌++◌, eq_refl, ◌||◌,
  inl, inr, All, All-append, Any, contains, contains-append, length, length-append, arith,
}
use Prim.Native.Nat.{Ordering}
use Prim.Native.String.{then as and_then}
use text.Mathlib.TextEquality.{path_by_compare}
use tree_ring_memory.Prelude.Maps.{entry_set}
use tree_ring_memory.Event.{MemoryEvent}
use tree_ring_memory.Externals.{Externals}
use tree_ring_memory.Consolidation.{
  GroupKey, compare_option, compare_key, group_key, push_event, group_events,
}
use tree_ring_memory.Consolidation.Plan.{event_ids}

then-eq : (a b : Ordering) → and_then a b ≡ Ordering.eq → (a ≡ Ordering.eq) × (b ≡ Ordering.eq)
then-eq Ordering.lt b h = absurd (cc h)
then-eq Ordering.eq b h = (refl, h)
then-eq Ordering.gt b h = absurd (cc h)

option-equal : (a b : Option String) → compare_option a b ≡ Ordering.eq → a ≡ b
unfolding compare_option
option-equal none none h = refl
option-equal none (some b) h = absurd (cc h)
option-equal (some a) none h = absurd (cc h)
option-equal (some a) (some b) h = ap some (path_by_compare a b h)

-- Keys that compare as equal are equal.
key-equal : (a b : GroupKey) → compare_key a b ≡ Ordering.eq → a ≡ b
unfolding compare_key
key-equal a b h =
    let (project, h1) = then-eq _ _ h in
    let (scope, h2) = then-eq _ _ h1 in
    let (agent, h3) = then-eq _ _ h2 in
    let (workflow, h4) = then-eq _ _ h3 in
    let (session, h5) = then-eq _ _ h4 in
    let (ring, h6) = then-eq _ _ h5 in
    let (event_type, bucket) = then-eq _ _ h6 in
    λ i. record {
      project = option-equal a.project b.project project i;
      scope = path_by_compare a.scope b.scope scope i;
      agent_partition = option-equal a.agent_partition b.agent_partition agent i;
      workflow_partition = option-equal a.workflow_partition b.workflow_partition workflow i;
      session_partition = option-equal a.session_partition b.session_partition session i;
      ring = path_by_compare a.ring b.ring ring i;
      event_type = path_by_compare a.event_type b.event_type event_type i;
      sensitivity_bucket = path_by_compare a.sensitivity_bucket b.sensitivity_bucket bucket i;
    }

module _ (env : Externals) (Q : MemoryEvent → Type 0) where
  -- Each event of the group has its key, and is one that was given.
  abbrev pub IsGroup : GroupKey × List MemoryEvent → Type 0
  IsGroup g = All (λ (e : MemoryEvent). (group_key env e ≡ g.0) × Q e) g.1

  push-IsGroup :
      (e : MemoryEvent) (groups : List (GroupKey × List MemoryEvent))
      → Q e
      → All IsGroup groups
      → All IsGroup (entry_set compare_key (group_key env e) (push_event env e) groups)
  unfolding entry_set push_event
  push-IsGroup e [] q h = (((refl, q), tt), tt)
  push-IsGroup e ((k, es) ∷ groups) q h =
      split (compare_key (group_key env e) k) refl (push-IsGroup e groups q h.1)
    where
      more : List (GroupKey × List MemoryEvent)
      more = entry_set compare_key (group_key env e) (push_event env e) groups

      split :
          (o : Ordering)
          → compare_key (group_key env e) k ≡ o
          → All IsGroup more
          → All IsGroup (elim o [
            | Ordering.lt ↦ (group_key env e, push_event env e none) ∷ (k, es) ∷ groups
            | Ordering.eq ↦ (k, push_event env e (some es)) ∷ groups
            | Ordering.gt ↦ (k, es) ∷ more
          ])
      split Ordering.lt same ih = (((refl, q), tt), h)
      split Ordering.eq same ih =
          (All-append _ es (e ∷ []) h.0 ((key-equal (group_key env e) k same, q), tt), h.1)
      split Ordering.gt same ih = (h.0, ih)

  pub groups-IsGroup :
      (groups : List (GroupKey × List MemoryEvent)) (es : List MemoryEvent)
      → All IsGroup groups
      → All Q es
      → All IsGroup (group_events env groups es)
  unfolding group_events
  groups-IsGroup groups [] h q = h
  groups-IsGroup groups (e ∷ es) h q =
      groups-IsGroup (entry_set compare_key (group_key env e) (push_event env e) groups) es
        (push-IsGroup e groups q.0 h) q.1

-- The number of the events of all groups.
abbrev pub members : List (GroupKey × List MemoryEvent) → ℕ
members [] = 0
members (g ∷ groups) = length g.1 + members groups

-- The id is one of a group.
abbrev pub IsMember : String → List (GroupKey × List MemoryEvent) → Type 0
IsMember id groups =
    Any (λ (g : GroupKey × List MemoryEvent). contains (event_ids g.1) id ≡ true) groups

ids-append : (xs ys : List MemoryEvent) → event_ids (xs ++ ys) ≡ event_ids xs ++ event_ids ys
unfolding event_ids
ids-append [] ys = refl
ids-append (x ∷ xs) ys = ap (◌∷◌ x.id) (ids-append xs ys)

contains_grown :
    (es : List MemoryEvent) (e : MemoryEvent) (id : String)
    → contains (event_ids (es ++ e ∷ [])) id
      ≡ (contains (event_ids es) id || contains (event_ids (e ∷ [])) id)
contains_grown es e id =
    rw (ids-append es (e ∷ [])) (contains-append (event_ids es) (event_ids (e ∷ [])) id)

module _ (env : Externals) where
  -- What an event that is pushed makes of the groups.
  pushed :
      (e : MemoryEvent) (groups : List (GroupKey × List MemoryEvent))
      → let after = entry_set compare_key (group_key env e) (push_event env e) groups in
        (members after ≡ suc (members groups))
        × IsMember e.id after
        × ((id : String) → IsMember id groups → IsMember id after)
  unfolding entry_set push_event event_ids contains
  pushed e [] = (omega arith, inl (rw (eq_refl e.id) refl), λ id h. absurd h)
  pushed e ((k, es) ∷ groups) = split (compare_key (group_key env e) k) (pushed e groups)
    where
      more : List (GroupKey × List MemoryEvent)
      more = entry_set compare_key (group_key env e) (push_event env e) groups

      Result : List (GroupKey × List MemoryEvent) → List (GroupKey × List MemoryEvent) → Type 0
      Result before after =
          (members after ≡ suc (members before))
          × IsMember e.id after
          × ((id : String) → IsMember id before → IsMember id after)

      split :
          (o : Ordering)
          → Result groups more
          → Result ((k, es) ∷ groups) (elim o [
            | Ordering.lt ↦ (group_key env e, push_event env e none) ∷ (k, es) ∷ groups
            | Ordering.eq ↦ (k, push_event env e (some es)) ∷ groups
            | Ordering.gt ↦ (k, es) ∷ more
          ])
      split Ordering.lt ih = (omega arith, inl (rw (eq_refl e.id) refl), λ id h. inr h)
      split Ordering.eq ih = (
        omega (arith, length-append es (e ∷ [])),
        inl (rw (contains_grown es e e.id) (rw (eq_refl e.id) (ground arith))),
        kept,
      )
        where
          kept :
              (id : String)
              → IsMember id ((k, es) ∷ groups)
              → IsMember id ((k, es ++ e ∷ []) ∷ groups)
          kept id (inl h) = inl (rw (contains_grown es e id) (rw h refl))
          kept id (inr h) = inr h
      split Ordering.gt ih = (omega (arith, ih.0), inr ih.1, later)
        where
          later : (id : String) → IsMember id ((k, es) ∷ groups) → IsMember id ((k, es) ∷ more)
          later id (inl h) = inl h
          later id (inr h) = inr (ih.2 id h)

  pub grouped :
      (groups : List (GroupKey × List MemoryEvent)) (es : List MemoryEvent)
      → let after = group_events env groups es in
        (members after ≡ members groups + length es)
        × All (λ (e : MemoryEvent). IsMember e.id after) es
        × ((id : String) → IsMember id groups → IsMember id after)
  unfolding group_events
  grouped groups [] = (omega arith, tt, λ id h. h)
  grouped groups (e ∷ es) =
      let step = pushed e groups in
      let rest = grouped (entry_set compare_key (group_key env e) (push_event env e) groups) es in
      (omega (arith, step.0, rest.0), (rest.2 e.id step.1, rest.1), λ id h. rest.2 id (step.2 id h))
