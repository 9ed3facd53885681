-- ===== src/Api/Consolidate/Again.antt =====
-- What a consolidation finds that repeats an earlier one.
use tree_ring_memory.Prelude.{
  ℕ, String, ◌≡◌, refl, ap, ◌∙◌, false, Bool, none, some, List, [], ◌∷◌, map, if◌then◌else◌, filter,
  eqb, All, All-map, Result, ok, err, TreeRingError,
}
use tree_ring_memory.Event.{MemoryEvent}
use tree_ring_memory.Externals.{Externals}
use tree_ring_memory.Sensitivity.{default_guard, detect_text_sensitivity}
use tree_ring_memory.Store.{Store, find_memory}
use tree_ring_memory.Policy.{WriteContext}
use tree_ring_memory.Consolidation.{ConsolidationRequest, period_text, group_events}
use tree_ring_memory.Consolidation.Plan.{
  ConsolidationOutput, ConsolidationReport, candidates_of, resolved_period_key, planned_report,
  build_outputs, consolidate_memories,
}
use tree_ring_memory.Consolidation.Planned.{plan-again}
use tree_ring_memory.Consolidation.Outputs.{outputs-IsSummary}
use tree_ring_memory.Api.Maintain.{is_current, order_by_created}
use tree_ring_memory.Api.Maintain.Effects.{listed}
use tree_ring_memory.Api.Invariant.Steps.{IsConsistent}
use tree_ring_memory.Api.Invariant.Guarded.{audit-IsConsistent}
use tree_ring_memory.Api.Consolidate.Written.{filter-put_all, put_all-consolidations}
use tree_ring_memory.Api.Consolidate.Repeated.{
  candidate, summary_is_no_candidate, candidates-same, find-new,
}
use tree_ring_memory.Api.Consolidate.Created.{if_false, IsCreated}
use tree_ring_memory.Api.Consolidate.{
  find_consolidation, created_report, unchanged_report, consolidation_row, request_texts,
  consolidate_found, consolidate_planned, consolidate_checked, consolidate,
}

All-outputs :
    (P : MemoryEvent → Type 0) (os : List ConsolidationOutput)
    → All (λ (o : ConsolidationOutput). P o.memory) os
    → All P (map (λ (o : ConsolidationOutput). o.memory) os)
All-outputs P [] h = tt
All-outputs P (o ∷ os) h = (h.0, All-outputs P os h.1)

module _ (env : Externals) (request : ConsolidationRequest) (wet : request.dry_run ≡ false)
    (unforced : request.force ≡ false) where
  -- `consolidate` of a wet run, once its texts are checked and its rows are read.
  abbrev after_reading :
      String
      → WriteContext
      → (ℕ → String × String)
      → String
      → ℕ
      → Store
      → Store × Result ConsolidationReport
  after_reading now context made id instant s = consolidate_planned env now context request s (
      consolidate_memories env made id now instant
        (order_by_created (filter (is_current false) s.memories)) request)

  pub consolidate-reads :
      (now : String) (context : WriteContext) (made : ℕ → String × String) (id : String)
      (instant : ℕ) (s : Store) (text : String)
      → IsConsistent env s
      → detect_text_sensitivity env default_guard (request_texts request) ≡ ok text
      → consolidate env now context made id instant request s
        ≡ after_reading now context made id instant s
  unfolding consolidate consolidate_checked
  consolidate-reads now context made id instant s text c checked =
      rw checked (rw (listed env false s c) (dry_run_off request.dry_run wet))
    where
      dry_run_off :
          (dry : Bool)
          → dry ≡ false
          → (if dry
              then (
                s,
                consolidate_memories env made id now instant
                    (order_by_created (filter (is_current false) s.memories))
                    request,
              )
              else after_reading now context made id instant s)
            ≡ after_reading now context made id instant s
      dry_run_off dry h = rw h refl

  -- What a report says of the second run.
  abbrev pub SameAgain : Store → ConsolidationReport → Store × Result ConsolidationReport → Type 0
  SameAgain s report r =
      (again : ConsolidationReport) × (r ≡ (s, ok again))
      × (again.status ≡ "unchanged")
      × (again.id ≡ report.id)
      × (again.source_memory_ids ≡ report.source_memory_ids)
      × (again.output_memory_ids ≡ report.output_memory_ids)

  -- The second call, from its plan: it differs from the first one in what it made.
  pub found_again :
      (now later id id' : String) (context : WriteContext) (s : Store) (k : String)
      (cs : List MemoryEvent) (os os' : List ConsolidationOutput)
      → let plan = planned_report id now request k cs os in
        eqb plan.candidate_count 0 ≡ false
        → find_consolidation
            (period_text plan.period_type)
            plan.period_key
            plan.source_memory_ids
            s.consolidations
          ≡ some (consolidation_row (created_report plan))
        → SameAgain s (created_report plan) (
            consolidate_planned env later context request s
              (ok (planned_report id' later request k cs os')))
  unfolding consolidate_planned consolidate_found unchanged_report consolidation_row created_report
      planned_report
  found_again now later id id' context s k cs os os' some_found found = (
    unchanged_report (consolidation_row (created_report (planned_report id now request k cs os)))
        (planned_report id' later request k cs os'),
    rw some_found (
        ap
          (consolidate_found env later context request (planned_report id' later request k cs os')
            s)
          (if_false request.force none _ unforced ∙ found)),
    refl,
    refl,
    refl,
    refl,
  )

  -- A plan of the same candidates for the same period.
  pub replanned :
      (made : ℕ → String × String) (id now : String) (instant : ℕ) (k : String)
      (rows cs : List MemoryEvent) {os : List ConsolidationOutput}
      → resolved_period_key env request instant ≡ k
      → candidates_of env rows request k ≡ cs
      → build_outputs env made 0 (group_events env [] cs) request.period_type k ≡ ok os
      → consolidate_memories env made id now instant rows request
        ≡ ok (planned_report id now request k cs os)
  replanned made id now instant k rows cs {os} period same built =
      rw (period, same) at
        (plan-again env made id now instant rows request {outputs = os} (rw (period, same) built))

  module _ (now : String) (context : WriteContext) (made : ℕ → String × String) (id : String)
      (instant : ℕ) (s s' : Store) (report : ConsolidationReport)
      (outputs : List ConsolidationOutput) where
    abbrev period_key : String
    period_key = resolved_period_key env request instant

    abbrev pub sources : Store → List MemoryEvent
    sources t =
        candidates_of env (order_by_created (filter (is_current false) t.memories)) request
          period_key

    abbrev pub plan : ConsolidationReport
    plan = planned_report id now request period_key (sources s) outputs

    -- The rows that a consolidation considers are the same after the outputs were written.
    pub sources-same :
        IsConsistent env s
        → ((n : ℕ) → find_memory (made n).0 s.memories ≡ none)
        → build_outputs env made 0 (group_events env [] (sources s)) request.period_type period_key
          ≡ ok outputs
        → IsCreated env s s' report plan
        → sources s' ≡ sources s
    unfolding planned_report
    sources-same c fresh built cr = candidates-same env request period_key s.memories s'.memories (
        ap (λ (x : Store). filter test x.memories) cr.after
        ∙ filter-put_all test env (λ n. (made n).0)
            (map (λ (o : ConsolidationOutput). o.memory) outputs) cr.before
            (audit-IsConsistent env now context cr.audited c)
            (All-outputs _ outputs (
              All-map outputs (λ o h. (summary_is_no_candidate env request period_key o h.0, h.1))
                (outputs-IsSummary env made request.period_type period_key 0 _ built)))
            (λ n m f. absurd (cc (fresh n, rw cr.audited.memories at f))) cr.wrote
        ∙ ap (filter test) cr.audited.memories)
      where
        test : MemoryEvent → Bool
        test = candidate env request period_key

    -- The record of the first call is found.
    pub record_found :
        IsCreated env s s' report plan
        → find_consolidation
            (period_text plan.period_type)
            plan.period_key
            plan.source_memory_ids
            s'.consolidations
          ≡ some (consolidation_row (created_report plan))
    unfolding consolidation_row created_report
    record_found cr = rw (ap (λ (x : Store). x.consolidations) cr.after) (
        rw (put_all-consolidations env _ cr.before cr.wrote ∙ cr.audited.consolidations)
          (find-new s.consolidations (consolidation_row (created_report plan)) refl cr.absent))

  pub refused :
      (now : String) (context : WriteContext) (made : ℕ → String × String) (id : String)
      (instant : ℕ) (s s' : Store) (report : ConsolidationReport) (error : TreeRingError)
      → detect_text_sensitivity env default_guard (request_texts request) ≡ err error
      → consolidate env now context made id instant request s ≡ (s', ok report)
      → ⊥
  unfolding consolidate consolidate_checked
  refused now context made id instant s s' report error failed h =
      cc (ap (λ (x : Store × Result ConsolidationReport). x.1) (rw failed at h))

  pub not_planned :
      (now : String) (context : WriteContext) (s s' : Store) (report : ConsolidationReport)
      (error : TreeRingError)
      → consolidate_planned env now context request s (err error) ≡ (s', ok report)
      → ⊥
  unfolding consolidate_planned
  not_planned now context s s' report error h =
      cc (ap (λ (x : Store × Result ConsolidationReport). x.1) h)
