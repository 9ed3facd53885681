-- ===== src/Tests/Consolidations.antt =====
-- Runs of a consolidation, and of the arithmetic on scores.
use tree_ring_memory.Prelude.{
  ℕ, ◌*◌, ◌^◌, String, ◌≡◌, refl, false, none, some, [], ◌∷◌, ok, Result, err, List, All, length,
}
use tree_ring_memory.Event.Score.{nonneg, half, one_units}
use tree_ring_memory.Event.Score.Arithmetic.{add, div}
use tree_ring_memory.Store.{Store, find_memory}
use tree_ring_memory.Consolidation.{ConsolidationRequest, manual, weekly, parse_period, week_text}
use tree_ring_memory.Consolidation.Plan.{
  ConsolidationReport, candidates_of, planned_report, resolved_period_key, consolidate_memories,
}
use tree_ring_memory.Consolidation.Replacement.{link_targets, best_consolidation_replacement}
use tree_ring_memory.Consolidation.Best.{IsBest, replacement-IsBest}
use tree_ring_memory.Consolidation.Sources.{
  IsSound, IsGiven, IsSource, sources_count, plan-IsSound, plan_is_complete,
}
use tree_ring_memory.Event.{MemoryEvent, MemoryLink}
use tree_ring_memory.Api.{put}
use tree_ring_memory.Api.History.{migrated, call_put, history-IsConsistent}
use tree_ring_memory.Api.Invariant.Steps.{IsConsistent}
use tree_ring_memory.Api.Consolidate.{consolidate}
use tree_ring_memory.Api.Consolidate.Twice.{consolidate_twice}
use tree_ring_memory.Api.Consolidate.Again.{SameAgain}
use tree_ring_memory.Tests.Data.{note, env, worker}
use tree_ring_memory.Tests.Program.{program}

one_plus_one : add (nonneg one_units) (nonneg one_units) ≡ nonneg (2 * one_units)
unfolding program
one_plus_one = refl

one_half : div (nonneg one_units) (nonneg (2 * one_units)) ≡ half
unfolding program
one_half = refl

one_third : div (nonneg one_units) (nonneg (3 * one_units)) ≡ nonneg (6004799503160661 * 2 ^ 1020)
unfolding program
one_third = refl

parsed : parse_period " Weekly " ≡ ok weekly
unfolding program
parsed = refl

fifth_week : week_text (record { before_zero = false; year = 2026; week = 5 }) ≡ "2026-W05"
unfolding program
fifth_week = refl

abbrev request : ConsolidationRequest
request = record {
  period_type = manual;
  period_key = some "p1";
  project = none;
  agent_profile = none;
  workflow_id = none;
  session_id = none;
  dry_run = false;
  force = false;
}

abbrev stored : Store
stored = (put env "t1" worker note (migrated "t0")).0

abbrev made : ℕ → String × String
made n = ("sum", "t2")

abbrev second : ℕ → String × String
second n = ("new", "t9")

abbrev first : Store × Result ConsolidationReport
first = consolidate env "t2" worker made "con_1" 4 request stored

abbrev report_in : Result ConsolidationReport → ConsolidationReport
report_in (ok report) = report
report_in (err error) = planned_report "" "" request "" [] []

stored-IsConsistent : IsConsistent env stored
unfolding program
stored-IsConsistent = history-IsConsistent env "t0" (call_put "t1" worker note ∷ [])

no_sum : find_memory "sum" stored.memories ≡ none
unfolding program
no_sum = refl

same_period : resolved_period_key env request 6 ≡ resolved_period_key env request 4
unfolding program
same_period = refl

created : first ≡ (first.0, ok (report_in first.1))
unfolding program
created = refl

is_created : (report_in first.1).status ≡ "created"
unfolding program
is_created = refl

consolidate_twice_example :
    SameAgain env request refl refl first.0
      (report_in first.1)
      (consolidate env "t8" worker second "con_2" 6 request first.0)
consolidate_twice_example =
    consolidate_twice env request refl refl "t2" "t8" worker worker made second "con_1" "con_2" 4 6
      stored first.0 (report_in first.1) stored-IsConsistent (λ n. no_sum) same_period created
      is_created

abbrev two_notes : List MemoryEvent
two_notes = note ∷ record note { id = "mem_2"; agent_profile = some "other" } ∷ []

abbrev planned : Result ConsolidationReport
planned = consolidate_memories env made "con_1" "t2" 4 two_notes request

plans : planned ≡ ok (report_in planned)
unfolding program
plans = refl

two_outputs : length (report_in planned).outputs ≡ 2
unfolding program
two_outputs = refl

plan-IsSound_example :
    All (IsSound env (IsGiven env request 4 two_notes)) (report_in planned).outputs
plan-IsSound_example =
    plan-IsSound env made "con_1" "t2" 4 two_notes request (report_in planned) plans

plan_is_complete_example :
    (sources_count (report_in planned).outputs ≡ (report_in planned).candidate_count)
    × All
        (λ (e : MemoryEvent). IsSource e.id (report_in planned).outputs)
        (candidates_of env two_notes request (resolved_period_key env request 4))
plan_is_complete_example =
    plan_is_complete env made "con_1" "t2" 4 two_notes request (report_in planned) plans

-- Outputs with links to the memories "a" and "b", and to "b".
abbrev link : String → MemoryLink
link target = record { link_type = "memory"; target = target }

abbrev wide : MemoryEvent
wide = record note { links = link "a" ∷ link "b" ∷ [] }

abbrev narrow : MemoryEvent
narrow = record note { id = "mem_3"; links = link "b" ∷ [] }

wide_replaces : best_consolidation_replacement wide (narrow ∷ wide ∷ []) ≡ some wide
unfolding program
wide_replaces = refl

replacement-IsBest_example :
    IsBest
      (link_targets wide.links)
      (narrow ∷ wide ∷ [])
      (best_consolidation_replacement wide (narrow ∷ wide ∷ []))
replacement-IsBest_example = replacement-IsBest wide (narrow ∷ wide ∷ [])
