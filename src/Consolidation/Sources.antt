-- ===== src/Consolidation/Sources.antt =====
-- What the outputs of a consolidation say of the memories that they summarise.
use tree_ring_memory.Prelude.{
  ℕ, suc, ◌+◌, String, ◌≡◌, refl, sym, ap, subst, true, Bool, List, [], ◌∷◌, ◌==◌, ◌⊎◌, inl, inr,
  All, All-map, All-both, All-self, All-kept, Any, contains, filter, length, arith, ok, >>=-eq-ok,
  ok-injective,
}
use tree_ring_memory.Prelude.Sorted.{sort-All}
use tree_ring_memory.Event.{MemoryEvent, fresh_event}
use tree_ring_memory.Externals.{Externals}
use tree_ring_memory.Consolidation.{
  ConsolidationPeriod, ConsolidationRequest, GroupKey, consolidation_candidate, group_events,
}
use tree_ring_memory.Consolidation.Plan.{
  ConsolidationOutput, ConsolidationReport, event_ids, group_summary, build_output, build_outputs,
  candidates_of, resolved_period_key, planned_report, consolidate_memories,
}
use tree_ring_memory.Consolidation.Outputs.{build_output-eq-ok}
use tree_ring_memory.Consolidation.Planned.{plan-eq-ok}
use tree_ring_memory.Consolidation.Groups.{IsGroup, groups-IsGroup, members, IsMember, grouped}
use tree_ring_memory.Consolidation.Parts.{IsPart, summary-IsPart}

-- The memories of an output: some of the given ones, of which it is a summary.
abbrev pub IsSound : Externals → (MemoryEvent → Type 0) → ConsolidationOutput → Type 0
IsSound env Q o =
    (events : List MemoryEvent) × (o.source_memory_ids ≡ event_ids events)
    × All (λ (e : MemoryEvent). IsPart env o.memory e × Q e) events

-- The number of the sources of all outputs, and one of them.
abbrev pub sources_count : List ConsolidationOutput → ℕ
sources_count [] = 0
sources_count (o ∷ os) = length o.source_memory_ids + sources_count os

abbrev pub IsSource : String → List ConsolidationOutput → Type 0
IsSource id os = Any (λ (o : ConsolidationOutput). contains o.source_memory_ids id ≡ true) os

module _ (env : Externals) (made : ℕ → String × String) (period_type : ConsolidationPeriod)
    (period_key : String) where
  outputs-IsSound :
      (Q : MemoryEvent → Type 0) (n : ℕ) (groups : List (GroupKey × List MemoryEvent))
      {outputs : List ConsolidationOutput}
      → All (IsGroup env Q) groups
      → build_outputs env made n groups period_type period_key ≡ ok outputs
      → All (IsSound env Q) outputs
  unfolding build_outputs
  outputs-IsSound Q n [] good h = subst (All (IsSound env Q)) (ok-injective h) tt
  outputs-IsSound Q n ((key, events) ∷ groups) good h =
      let (o, built, rest) =
        >>=-eq-ok (build_output env (made n) key events period_type period_key) _ h in
      let (os, more, end) =
        >>=-eq-ok (build_outputs env made (suc n) groups period_type period_key) _ rest in
      let b = build_output-eq-ok env (made n) key events period_type period_key built in
      let parts : All (IsPart env o.memory) events =
        subst (λ (m : MemoryEvent). All (IsPart env m) events) (sym b.memory)
          (summary-IsPart env key
            (fresh_event (made n).0 (made n).1
              (group_summary key (key.sensitivity_bucket == "sensitive") (length events)) "summary")
            events period_type period_key (All-map events (λ e k. k.0) good.0)) in
      subst (All (IsSound env Q)) (ok-injective end) (
        (events, b.sources, All-both _ _ events parts (All-map events (λ e k. k.1) good.0)),
        outputs-IsSound Q (suc n) groups good.1 more,
      )

  -- The sources of the outputs are the members of the groups.
  outputs-sources :
      (n : ℕ) (groups : List (GroupKey × List MemoryEvent)) (outputs : List ConsolidationOutput)
      → build_outputs env made n groups period_type period_key ≡ ok outputs
      → (sources_count outputs ≡ members groups)
        × ((id : String) → IsMember id groups → IsSource id outputs)
  unfolding build_outputs
  outputs-sources n [] outputs h = rw (sym (ok-injective h)) (refl, λ id m. m)
  outputs-sources n ((key, events) ∷ groups) outputs h =
      let (o, built, rest) =
        >>=-eq-ok (build_output env (made n) key events period_type period_key) _ h in
      let (os, more, end) =
        >>=-eq-ok (build_outputs env made (suc n) groups period_type period_key) _ rest in
      let b = build_output-eq-ok env (made n) key events period_type period_key built in
      let (count, found) = outputs-sources (suc n) groups os more in
      subst
        (λ (xs : List ConsolidationOutput).
          (sources_count xs ≡ members ((key, events) ∷ groups))
          × ((id : String) → IsMember id ((key, events) ∷ groups) → IsSource id xs))
        (ok-injective end)
        (
          omega (arith, count, ap length b.sources, ids_length events),
          λ id m. source os id o.source_memory_ids b.sources found m,
        )
    where
      ids_length : (es : List MemoryEvent) → length (event_ids es) ≡ length es
      ids_length [] = unfold event_ids in refl
      ids_length (x ∷ xs) = unfold event_ids in ap suc (ids_length xs)

      source :
          (os : List ConsolidationOutput) (id : String) (ids : List String)
          → ids ≡ event_ids events
          → ((i : String) → IsMember i groups → IsSource i os)
          → IsMember id ((key, events) ∷ groups)
          → (contains ids id ≡ true) ⊎ IsSource id os
      source os id ids same found (inl here) = inl (rw same here)
      source os id ids same found (inr there) = inr (found id there)

-- One of the given memories that is a candidate of the request.
abbrev pub IsGiven : Externals → ConsolidationRequest → ℕ → List MemoryEvent → MemoryEvent → Type 0
IsGiven env request instant events e =
    Any (λ (x : MemoryEvent). e ≡ x) events
    × (consolidation_candidate env e request (resolved_period_key env request instant) ≡ true)

module _ (env : Externals) (made : ℕ → String × String) (id now : String) (instant : ℕ)
    (events : List MemoryEvent) (request : ConsolidationRequest) (plan : ConsolidationReport) where
  abbrev key : String
  key = resolved_period_key env request instant

  abbrev test : MemoryEvent → Bool
  test e = consolidation_candidate env e request key

  -- Each output of a plan is a summary of candidates among the given memories: it has the project
  -- and the scope of each of them, the agent, the workflow or the session of each of them that is
  -- private to it, and it is private and for review if one of them is sensitive.
  pub plan-IsSound :
      consolidate_memories env made id now instant events request ≡ ok plan
      → All (IsSound env (IsGiven env request instant events)) plan.outputs
  unfolding planned_report candidates_of
  plan-IsSound h =
      let (outputs, built, same) = plan-eq-ok env made id now instant events request h in
      subst
        (λ (p : ConsolidationReport).
          All (IsSound env (IsGiven env request instant events)) p.outputs)
        same
        (outputs-IsSound env made request.period_type key (IsGiven env request instant events) 0 _
          (groups-IsGroup env (IsGiven env request instant events) [] _ tt (
            sort-All _ (IsGiven env request instant events) (filter test events)
              (All-kept _ test events (All-self events))))
          built)

  -- A plan leaves no candidate out: the id of each is a source of an output, and the outputs have
  -- together as many sources as there are candidates.
  pub plan_is_complete :
      consolidate_memories env made id now instant events request ≡ ok plan
      → (sources_count plan.outputs ≡ plan.candidate_count)
        × All
            (λ (e : MemoryEvent). IsSource e.id plan.outputs)
            (candidates_of env events request key)
  unfolding planned_report
  plan_is_complete h =
      let (outputs, built, same) = plan-eq-ok env made id now instant events request h in
      let cs = candidates_of env events request key in
      let (count, found) =
        outputs-sources env made request.period_type key 0 (group_events env [] cs) outputs built in
      let whole = grouped env [] cs in
      subst
        (λ (p : ConsolidationReport).
          (sources_count p.outputs ≡ p.candidate_count)
          × All (λ (e : MemoryEvent). IsSource e.id p.outputs) cs)
        same (omega (arith, count, whole.0), All-map cs (λ e m. found e.id m) whole.1)
