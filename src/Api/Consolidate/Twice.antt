-- ===== src/Api/Consolidate/Twice.antt =====
-- A consolidation that is run a second time changes nothing.
use tree_ring_memory.Prelude.{
  ℕ, String, ◌≡◌, refl, sym, ap, ◌∙◌, subst, false, none, List, [], ◌⊎◌, filter, inl, inr, Result,
  ok, err, Result-cases, TreeRingError,
}
use tree_ring_memory.Event.{MemoryEvent}
use tree_ring_memory.Externals.{Externals}
use tree_ring_memory.Sensitivity.{default_guard, detect_text_sensitivity}
use tree_ring_memory.Store.{Store, find_memory}
use tree_ring_memory.Policy.{WriteContext}
use tree_ring_memory.Consolidation.{ConsolidationRequest, group_events}
use tree_ring_memory.Consolidation.Plan.{
  ConsolidationOutput, ConsolidationReport, resolved_period_key, planned_report, build_outputs,
  consolidate_memories,
}
use tree_ring_memory.Consolidation.Planned.{plan-eq-ok, planned_is_not_created}
use tree_ring_memory.Consolidation.Outputs.{build_outputs-made}
use tree_ring_memory.Api.Maintain.{is_current, order_by_created}
use tree_ring_memory.Api.Invariant.Steps.{IsConsistent}
use tree_ring_memory.Api.Invariant.Consolidated.{consolidate-IsConsistent}
use tree_ring_memory.Api.Consolidate.Created.{IsCreated, planned-IsCreated}
use tree_ring_memory.Api.Consolidate.{request_texts, consolidate_planned, consolidate}
use tree_ring_memory.Api.Consolidate.Again.{
  SameAgain, consolidate-reads, found_again, replanned, sources, plan, sources-same, record_found,
  refused, not_planned,
}

module _ (env : Externals) (request : ConsolidationRequest) (wet : request.dry_run ≡ false)
    (unforced : request.force ≡ false) where
  -- A consolidation that is neither forced nor a dry run and that created summaries, in a consistent
  -- store and with ids that no row had, is found by every later call with the same request that
  -- resolves to the same period on the tables that it left, whoever makes it and whatever ids and
  -- times it makes: that call succeeds, reports the first one's record, sources and outputs as
  -- unchanged, and changes nothing.
  pub consolidate_twice :
      (now later : String) (context other : WriteContext) (made made' : ℕ → String × String)
      (id id' : String) (instant instant' : ℕ) (s s' : Store) (report : ConsolidationReport)
      → IsConsistent env s
      → ((n : ℕ) → find_memory (made n).0 s.memories ≡ none)
      → resolved_period_key env request instant' ≡ resolved_period_key env request instant
      → consolidate env now context made id instant request s ≡ (s', ok report)
      → report.status ≡ "created"
      → SameAgain env request wet unforced s' report
          (consolidate env later other made' id' instant' request s')
  consolidate_twice now later context other made made' id id' instant instant' s s' report c fresh
        period h created =
      read (Result-cases (detect_text_sensitivity env default_guard (request_texts request)))
    where
      cs : List MemoryEvent
      cs = sources env request wet unforced now context made id instant s s' report [] s

      Again : Type 0
      Again =
          SameAgain env request wet unforced s' report
            (consolidate env later other made' id' instant' request s')

      finish :
          (text : String) (outputs : List ConsolidationOutput)
          → detect_text_sensitivity env default_guard (request_texts request) ≡ ok text
          → build_outputs env made 0
              (group_events env [] cs)
              request.period_type
              (resolved_period_key env request instant)
            ≡ ok outputs
          → IsCreated env s s' report
              (plan env request wet unforced now context made id instant s s' report outputs)
          → Again
      finish text outputs checked built cr =
          let k = resolved_period_key env request instant in
          let same =
            sources-same env request wet unforced now context made id instant s s' report outputs c
              fresh built cr in
          let c' : IsConsistent env s' =
            subst (IsConsistent env) (ap (λ (x : Store × Result ConsolidationReport). x.0) h)
              (consolidate-IsConsistent env now context made id instant request s c) in
          let (outputs', built') =
            build_outputs-made env made made' request.period_type k 0 _ built in
          subst
            (λ (r : ConsolidationReport).
              SameAgain env request wet unforced s' r
                (consolidate env later other made' id' instant' request s'))
            (sym cr.reported)
            (rw
              (consolidate-reads env request wet unforced later other made' id' instant' s' text c'
                checked)
              (rw
                (replanned env request wet unforced made' id' later instant' k
                  (order_by_created (filter (is_current false) s'.memories)) cs period same built')
                (found_again env request wet unforced now later id id' other s' k cs outputs
                  outputs' cr.some_found
                  (record_found env request wet unforced now context made id instant s s' report
                    outputs cr))))

      planned :
          (text : String) (o : Result ConsolidationReport)
          → detect_text_sensitivity env default_guard (request_texts request) ≡ ok text
          → consolidate_memories env made id now instant
              (order_by_created (filter (is_current false) s.memories))
              request
            ≡ o
          → consolidate_planned env now context request s o ≡ (s', ok report)
          → Again
      planned text (err error) checked p g =
          absurd (not_planned env request wet unforced now context s s' report error g)
      planned text (ok p) checked built g =
          let (outputs, made_outputs, same) = plan-eq-ok env made id now instant _ request built in
          let k = resolved_period_key env request instant in
          finish text outputs checked made_outputs (
            planned-IsCreated env request now context s s' report unforced created
              (planned_report id now request k cs outputs)
              (planned_is_not_created id now request k cs outputs)
              (ap
                  (λ (x : ConsolidationReport).
                    consolidate_planned env now context request s (ok x))
                  same
                ∙ g))

      read :
          ((text : String) × (detect_text_sensitivity env default_guard (request_texts request)
                ≡ ok text))
            ⊎ ((error : TreeRingError) × (detect_text_sensitivity env default_guard
                    (request_texts request)
                  ≡ err error))
          → Again
      read (inr (error, failed)) =
          absurd (
            refused env request wet unforced now context made id instant s s' report error failed h)
      read (inl (text, checked)) = planned text _ checked refl (
          sym (
            consolidate-reads env request wet unforced now context made id instant s text c checked)
          ∙ h)
