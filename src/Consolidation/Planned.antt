-- ===== src/Consolidation/Planned.antt =====
-- What `consolidate_memories` gives, whatever ids and times are made.
use tree_ring_memory.Prelude.{
  ℕ, String, ◌≡◌, refl, ap, false, List, [], ◌∷◌, ◌==◌, if◌then◌else◌, is_empty, Bool-cases, inl,
  inr, ◌>>=◌, >>=-eq-ok, ok-injective, ok,
}
use tree_ring_memory.Event.{MemoryEvent}
use tree_ring_memory.Externals.{Externals}
use tree_ring_memory.Consolidation.{ConsolidationRequest, group_events}
use tree_ring_memory.Consolidation.Plan.{
  ConsolidationOutput, ConsolidationReport, candidates_of, resolved_period_key, planned_report,
  build_outputs, consolidate_memories,
}

-- The plan of a consolidation is the report on its candidates.
pub plan-eq-ok :
    (env : Externals) (made : ℕ → String × String) (id now : String) (instant : ℕ)
    (events : List MemoryEvent) (request : ConsolidationRequest) {plan : ConsolidationReport}
    → consolidate_memories env made id now instant events request ≡ ok plan
    → let k = resolved_period_key env request instant in
      let cs = candidates_of env events request k in
      (outputs : List ConsolidationOutput) × (build_outputs env made 0
          (group_events env [] cs)
          request.period_type
          k
        ≡ ok outputs)
      × (planned_report id now request k cs outputs ≡ plan)
unfolding consolidate_memories
plan-eq-ok env made id now instant events request {plan} h =
    split (candidates_of env events request (resolved_period_key env request instant)) h
  where
    k : String
    k = resolved_period_key env request instant

    split :
        (cs : List MemoryEvent)
        → (if is_empty cs
            then ok (planned_report id now request k [] [])
            else (build_outputs env made 0 (group_events env [] cs) request.period_type k
                >>= λ outputs. ok (planned_report id now request k cs outputs)))
          ≡ ok plan
        → (outputs : List ConsolidationOutput) × (build_outputs env made 0
              (group_events env [] cs)
              request.period_type
              k
            ≡ ok outputs)
          × (planned_report id now request k cs outputs ≡ plan)
    split [] g = ([], unfold group_events build_outputs in refl, ok-injective g)
    split (c ∷ cs) g =
        let (outputs, built, end) =
          >>=-eq-ok (build_outputs env made 0 (group_events env [] (c ∷ cs)) request.period_type k)
            _ g in
        (outputs, built, ok-injective end)

-- The same plan, with what another call makes.
pub plan-again :
    (env : Externals) (made : ℕ → String × String) (id now : String) (instant : ℕ)
    (events : List MemoryEvent) (request : ConsolidationRequest)
    {outputs : List ConsolidationOutput}
    → let k = resolved_period_key env request instant in
      let cs = candidates_of env events request k in
      build_outputs env made 0 (group_events env [] cs) request.period_type k ≡ ok outputs
      → consolidate_memories env made id now instant events request
        ≡ ok (planned_report id now request k cs outputs)
unfolding consolidate_memories
plan-again env made id now instant events request {outputs} h =
    split (candidates_of env events request (resolved_period_key env request instant)) h
  where
    k : String
    k = resolved_period_key env request instant

    split :
        (cs : List MemoryEvent)
        → build_outputs env made 0 (group_events env [] cs) request.period_type k ≡ ok outputs
        → (if is_empty cs
            then ok (planned_report id now request k [] [])
            else (build_outputs env made 0 (group_events env [] cs) request.period_type k >>= λ os.
                ok (planned_report id now request k cs os)))
          ≡ ok (planned_report id now request k cs outputs)
    split [] g =
        ap (λ (os : List ConsolidationOutput). ok (planned_report id now request k [] os))
          (ok-injective (unfold group_events build_outputs in g))
    split (c ∷ cs) g = rw g refl

pub planned_is_not_created :
    (id now : String) (request : ConsolidationRequest) (k : String) (cs : List MemoryEvent)
    (outputs : List ConsolidationOutput)
    → (planned_report id now request k cs outputs).status == "created" ≡ false
unfolding planned_report
planned_is_not_created id now request k cs outputs = elim (Bool-cases request.dry_run) [
  | inl dry ↦ rw dry refl
  | inr wet ↦ rw wet (elim (Bool-cases (is_empty cs)) [ inl p ↦ rw p refl | inr p ↦ rw p refl ])
]
