-- ===== src/Api/Consolidate.antt =====
-- lib.rs: `consolidate`, its records and the replacement of the outputs of earlier runs.
pub mod Written
pub mod Repeated
pub mod Created
pub mod Again
pub mod Twice
use tree_ring_memory.Prelude.{
  ◌>>◌, any, ensure, storage, ℕ, String, Bool, true, false, not, ◌&&◌, Option, none, some, List, [],
  ◌∷◌, ◌++◌, map, ◌==◌, eqb, if◌then◌else◌, filter, head?, Result, ok, err, ◌>>=◌,
}
use Prim.Native.String.{compare}
use text.Mathlib.Text.{is_lt}
use tree_ring_memory.Prelude.Maps.{sort_by}
use tree_ring_memory.Event.{MemoryEvent}
use tree_ring_memory.Externals.{Externals}
use tree_ring_memory.Sensitivity.{default_guard, detect_text_sensitivity}
use tree_ring_memory.Store.{Store, ConsolidationRow}
use tree_ring_memory.Store.Write.{select_event, supersede_in_transaction}
use tree_ring_memory.Policy.{WriteContext, authorize_coordinator_action}
use tree_ring_memory.Consolidation.{ConsolidationRequest, period_text, differs}
use tree_ring_memory.Consolidation.Replacement.{consolidation_supersession_pairs}
use tree_ring_memory.Consolidation.Plan.{
  ConsolidationOutput, ConsolidationReport, consolidate_memories,
}
use tree_ring_memory.Api.{guarded}
use tree_ring_memory.Api.Batch.{put_all}
use tree_ring_memory.Api.Maintain.{list_all}

-- the `WHERE` of the queries for created consolidations of a period
unfoldable pub of_period : String → String → ConsolidationRow → Bool
of_period period_type period_key row =
    row.period_type == period_type && row.period_key == period_key && row.status == "created"

-- equality of the encoded lists of ids
unfoldable pub ids_eq : List String → List String → Bool
ids_eq [] [] = true
ids_eq [] (y ∷ ys) = false
ids_eq (x ∷ xs) [] = false
ids_eq (x ∷ xs) (y ∷ ys) = x == y && ids_eq xs ys

-- `find_consolidation_on_connection`: the newest row
unfoldable pub find_consolidation :
    String → String → List String → List ConsolidationRow → Option ConsolidationRow
unfolding of_period ids_eq filter sort_by
find_consolidation period_type period_key source_ids rows = head? (
    sort_by (λ (a b : ConsolidationRow). is_lt (compare b.created_at a.created_at))
      (filter
        (λ (row : ConsolidationRow).
          of_period period_type period_key row && ids_eq row.source_memory_ids source_ids)
        rows))

-- the ids that `previous_consolidation_outputs_on_connection` reads, the oldest row first
unfoldable pub append_outputs : List ConsolidationRow → List String
append_outputs [] = []
append_outputs (row ∷ rows) = row.output_memory_ids ++ append_outputs rows

unfoldable pub previous_output_ids : String → String → List ConsolidationRow → List String
unfolding of_period filter sort_by append_outputs
previous_output_ids period_type period_key rows = append_outputs (
    sort_by (λ (a b : ConsolidationRow). is_lt (compare a.created_at b.created_at))
      (filter (of_period period_type period_key) rows))

unfoldable pub consolidation_context_matches : MemoryEvent → ConsolidationRequest → Bool
unfolding differs
consolidation_context_matches e request =
    not (differs request.project e.project)
    && (not (differs request.agent_profile e.agent_profile)
        && (not (differs request.workflow_id e.workflow_id)
            && not (differs request.session_id e.session_id)))

-- the row that `insert_consolidation_record` writes
unfoldable pub consolidation_row : ConsolidationReport → ConsolidationRow
consolidation_row report = record {
  id = report.id;
  created_at = report.created_at;
  period_type = period_text report.period_type;
  period_key = report.period_key;
  source_memory_ids = report.source_memory_ids;
  output_memory_ids = report.output_memory_ids;
  status = report.status;
  notes = report.notes;
}

-- `insert_consolidation_record`: the primary key refuses an id that is there
unfoldable pub insert_consolidation_record : ConsolidationReport → Store → Result Store
unfolding consolidation_row any
insert_consolidation_record report s = do
  ensure (not (any (λ (row : ConsolidationRow). row.id == report.id) s.consolidations))
      (storage "UNIQUE constraint failed: consolidations.id")
  ok (record s { consolidations = s.consolidations ++ consolidation_row report ∷ [] })

-- the report where a matching consolidation is found
unfoldable pub unchanged_report : ConsolidationRow → ConsolidationReport → ConsolidationReport
unchanged_report stored report = record report {
  id = stored.id;
  created_at = stored.created_at;
  output_memory_ids = stored.output_memory_ids;
  status = "unchanged";
  notes = "Matching consolidation already exists.";
  outputs = [];
}

unfoldable pub created_report : ConsolidationReport → ConsolidationReport
created_report report = record report {
  status = "created";
  notes = "Consolidation summaries stored.";
}

abbrev pub outputs_of : ConsolidationReport → List MemoryEvent
outputs_of report = map (λ (o : ConsolidationOutput). o.memory) report.outputs

-- `.into_iter().flatten()`
unfoldable pub present : List (Option String) → List String
present [] = []
present (none ∷ values) = present values
present (some value ∷ values) = value ∷ present values

-- `if let Some(output) = … { if consolidation_context_matches(…) { outputs.push(output) } }`
unfoldable pub keep_matching :
    ConsolidationRequest → Option MemoryEvent → List MemoryEvent → List MemoryEvent
unfolding consolidation_context_matches
keep_matching request none outputs = outputs
keep_matching request (some output) outputs =
    if consolidation_context_matches output request then output ∷ outputs else outputs

unfoldable pub previous_pairs :
    ConsolidationReport → Result (List MemoryEvent) → Result (List (String × String))
unfolding consolidation_supersession_pairs
previous_pairs report previous = do
  outputs ← previous
  ok (consolidation_supersession_pairs outputs (outputs_of report))

-- the texts of a request that are checked
unfoldable pub request_texts : ConsolidationRequest → List String
unfolding present
request_texts request = present (
    request.period_key ∷ request.project ∷ request.agent_profile ∷ request.workflow_id
    ∷ request.session_id ∷ [])

module _ (env : Externals) where
  -- the loop over the ids of earlier outputs
  unfoldable pub read_outputs :
      ConsolidationRequest → Store → List String → Result (List MemoryEvent)
  unfolding keep_matching
  read_outputs request s [] = ok []
  read_outputs request s (id ∷ ids) = do
    found ← select_event env id s
    outputs ← read_outputs request s ids
    ok (keep_matching request found outputs)

  unfoldable pub supersede_pairs : List (String × String) → Store → Result Store
  supersede_pairs [] s = ok s
  supersede_pairs ((old_id, new_id) ∷ pairs) s = do
    (s', _) ← supersede_in_transaction env s old_id new_id
    supersede_pairs pairs s'

  -- the pairs of a forced consolidation
  unfoldable pub forced_pairs :
      ConsolidationRequest → ConsolidationReport → Store → Result (List (String × String))
  unfolding read_outputs previous_output_ids previous_pairs
  forced_pairs request report s =
      if request.force
      then previous_pairs report (
          read_outputs request s (
            previous_output_ids (period_text report.period_type) report.period_key
              s.consolidations))
      else ok []

  -- the writes, once they are allowed
  unfoldable pub consolidate_body :
      ConsolidationRequest → ConsolidationReport → Store → Result (Store × ConsolidationReport)
  unfolding forced_pairs created_report insert_consolidation_record supersede_pairs
  consolidate_body request report s = do
    pairs ← forced_pairs request report s
    written ← put_all env (outputs_of report) s
    superseded ← supersede_pairs pairs written
    let report' = created_report report
    recorded ← insert_consolidation_record report' superseded
    ok (recorded, report')

  module _ (now : String) (context : WriteContext) where
    -- what is done with a plan, and with the record that matches it
    unfoldable pub consolidate_found :
        ConsolidationRequest
        → ConsolidationReport
        → Store
        → Option ConsolidationRow
        → Store × Result ConsolidationReport
    unfolding unchanged_report consolidate_body
    consolidate_found request report s (some stored) = (s, ok (unchanged_report stored report))
    consolidate_found request report s none =
        guarded s
          (authorize_coordinator_action env now context "consolidate"
            (head? (map (λ (e : MemoryEvent). e.id) (outputs_of report))) s)
          (consolidate_body request report)

    unfoldable pub consolidate_planned :
        ConsolidationRequest
        → Store
        → Result ConsolidationReport
        → Store × Result ConsolidationReport
    unfolding consolidate_found find_consolidation
    consolidate_planned request s (err error) = (s, err error)
    consolidate_planned request s (ok report) =
        if eqb report.candidate_count 0
        then (s, ok report)
        else consolidate_found request report s (
            if request.force
            then none
            else find_consolidation (period_text report.period_type) report.period_key
                report.source_memory_ids s.consolidations)

    -- `consolidate` once the texts of the request are checked
    unfoldable pub consolidate_checked :
        (ℕ → String × String)
        → String
        → ℕ
        → ConsolidationRequest
        → Store
        → Result String
        → Store × Result ConsolidationReport
    unfolding consolidate_planned
    consolidate_checked made id instant request s (err error) = (s, err error)
    consolidate_checked made id instant request s (ok _) =
        let plan = list_all env false s >>= λ events.
        consolidate_memories env made id now instant events request in
        if request.dry_run then (s, plan) else consolidate_planned request s plan

    unfoldable pub consolidate :
        (ℕ → String × String)
        → String
        → ℕ
        → ConsolidationRequest
        → Store
        → Store × Result ConsolidationReport
    unfolding consolidate_checked request_texts
    consolidate made id instant request s =
        consolidate_checked made id instant request s
          (detect_text_sensitivity env default_guard (request_texts request))
