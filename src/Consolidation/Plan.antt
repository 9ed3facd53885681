-- ===== src/Consolidation/Plan.antt =====
-- crates/tree-ring-memory-core/src/consolidation.rs: the summaries that a consolidation makes of its
-- groups, and the report. The ids and times of new memories, which `MemoryEvent::new` makes, are a
-- function of how many were made before.
use tree_ring_memory.Prelude.{
  ℕ, suc, ◌+◌, String, Bool, not, ◌&&◌, ◌||◌, Option, none, some, List, [], ◌∷◌, map, ◌==◌, ltb,
  eqb, if◌then◌else◌, all, length, take, option_eq, join, Result, ok, ◌>>=◌, ◌>>◌, filter, is_empty,
}
use Prim.Native.String.{compare, ◌++◌ as append}
use text.Mathlib.Text.{is_lt}
use tree_ring_memory.Prelude.Decimal.{decimal}
use tree_ring_memory.Prelude.Maps.{entry_set, sort_by}
use tree_ring_memory.Event.{MemoryEvent, MemoryLink}
use tree_ring_memory.Event.Score.{F64, nonneg, half, le, one_units}
use tree_ring_memory.Event.Score.Arithmetic.{add, div, eq, clamp_unit}
use tree_ring_memory.Event.Validate.{validate, new_event}
use tree_ring_memory.Externals.{Externals}
use tree_ring_memory.Sensitivity.{inspect}
use tree_ring_memory.Audit.{three_quarters}
use tree_ring_memory.Consolidation.{
  ConsolidationPeriod, period_text, default_output_ring, GroupKey, ConsolidationRequest,
  period_key_for_datetime, consolidation_candidate, group_events,
}

pub record ConsolidationOutput : Type 0 where
  pub memory : MemoryEvent
  pub source_memory_ids : List String

pub record ConsolidationReport : Type 0 where
  pub id : String
  pub created_at : String
  pub period_type : ConsolidationPeriod
  pub period_key : String
  pub candidate_count : ℕ
  pub source_memory_ids : List String
  pub output_memory_ids : List String
  pub dry_run : Bool
  pub force : Bool
  pub status : String
  pub notes : String
  pub outputs : List ConsolidationOutput

-- the loop of `average`, from the count and the total so far
unfoldable pub average_from : F64 → F64 → List F64 → F64
unfolding add div eq clamp_unit half one_units
average_from count total [] = if eq count (nonneg 0) then half else clamp_unit (div total count)
average_from count total (v ∷ vs) = average_from (add count (nonneg one_units)) (add total v) vs

unfoldable pub average : List F64 → F64
unfolding average_from
average values = average_from (nonneg 0) (nonneg 0) values

unfoldable pub uniform_optional : List (Option String) → Option String
unfolding all
uniform_optional [] = none
uniform_optional (first ∷ values) =
    if all (λ (value : Option String). option_eq value first) values then first else none

unfoldable pub output_ring : ConsolidationPeriod → GroupKey → List MemoryEvent → String
unfolding average default_output_ring le three_quarters
output_ring period_type key events =
    if key.ring == "scar"
    then "scar"
    else if key.ring == "seed"
    then "seed"
    else if key.ring == "heartwood"
        && le three_quarters (average (map (λ (e : MemoryEvent). e.confidence) events))
    then "heartwood"
    else default_output_ring period_type

-- `*counts.entry(tag).or_default() += 1`
unfoldable pub one_more : Option ℕ → ℕ
one_more none = 1
one_more (some n) = n + 1

-- the order of `ranked`: by the count from above, then by the tag
unfoldable pub ranks_before : String × ℕ → String × ℕ → Bool
ranks_before left right = ltb right.1 left.1 || eqb right.1 left.1 && is_lt (compare left.0 right.0)

unfoldable pub tag_set : List String → List (String × Unit {0}) → List (String × Unit {0})
unfolding entry_set
tag_set [] set = set
tag_set (tag ∷ tags) set = tag_set tags (entry_set compare tag (λ _. tt) set)

unfoldable pub memory_link : String → MemoryLink
memory_link id = record { link_type = "memory"; target = id }

unfoldable pub event_ids : List MemoryEvent → List String
event_ids events = map (λ (e : MemoryEvent). e.id) events

-- the two texts of `summary`
unfoldable pub group_summary : GroupKey → Bool → ℕ → String
group_summary key is_sensitive count =
    if is_sensitive
    then append "Consolidated " (append (decimal count) " sensitive memory group requiring review.")
    else append "Consolidated " (
        append (decimal count) (
          append " " (
            append key.event_type (
              append " memory group for project " (
                append (elim key.project [ none ↦ "global" | some project ↦ project ])
                  (append " in " (append key.ring " ring.")))))))

-- the report once the outputs are built
unfoldable pub planned_report :
    String
    → String
    → ConsolidationRequest
    → String
    → List MemoryEvent
    → List ConsolidationOutput
    → ConsolidationReport
unfolding event_ids
planned_report id now request period_key candidates outputs = record {
  id = id;
  created_at = now;
  period_type = request.period_type;
  period_key = period_key;
  candidate_count = length candidates;
  source_memory_ids = event_ids candidates;
  output_memory_ids = map (λ (o : ConsolidationOutput). o.memory.id) outputs;
  dry_run = request.dry_run;
  force = request.force;
  status =
      if request.dry_run then "dry_run" else if is_empty candidates then "empty" else "planned";
  notes =
      if is_empty candidates
      then "No memories matched consolidation criteria."
      else "Consolidation plan generated.";
  outputs = outputs;
}

module _ (env : Externals) where
  unfoldable pub count_tags : List String → List (String × ℕ) → List (String × ℕ)
  unfolding entry_set one_more
  count_tags [] counts = counts
  count_tags (tag ∷ tags) counts = count_tags tags (
      if not ((inspect env tag).sensitivity == "normal")
      then counts
      else entry_set compare tag one_more counts)

  unfoldable pub count_event_tags : List MemoryEvent → List (String × ℕ) → List (String × ℕ)
  unfolding count_tags
  count_event_tags [] counts = counts
  count_event_tags (e ∷ es) counts = count_event_tags es (count_tags e.tags counts)

  unfoldable pub top_tags : List MemoryEvent → List String
  unfolding count_event_tags sort_by ranks_before take tag_set entry_set
  top_tags events =
      let ranked = sort_by ranks_before (count_event_tags events []) in
      let tags = tag_set (map (λ (entry : String × ℕ). entry.0) (take 5 ranked)) [] in
      map (λ (entry : String × Unit {0}). entry.0)
        (entry_set compare "consolidation" (λ _. tt) tags)

  -- the assignments of `build_output` to the new memory
  unfoldable pub output_memory :
      MemoryEvent → GroupKey → List MemoryEvent → ConsolidationPeriod → String → MemoryEvent
  unfolding uniform_optional output_ring average top_tags memory_link event_ids
  output_memory fresh key events period_type period_key =
      let is_sensitive = key.sensitivity_bucket == "sensitive" in
      record fresh {
        project = key.project;
        agent_profile = uniform_optional (map (λ (e : MemoryEvent). e.agent_profile) events);
        workflow_id = uniform_optional (map (λ (e : MemoryEvent). e.workflow_id) events);
        session_id = uniform_optional (map (λ (e : MemoryEvent). e.session_id) events);
        operation_id = none;
        scope = key.scope;
        ring = output_ring period_type key events;
        details = append "Period: " (
            append (period_text period_type) (
              append ":" (
                append period_key (
                  append "; source_count=" (
                    append (decimal (length events))
                      (append "; source_ids=" (join "," (event_ids events))))))));
        source = record {
          source_type = "consolidation";
          ref_ = append (period_text period_type) (append ":" period_key);
          quote = "";
        };
        tags = top_tags events;
        salience = average (map (λ (e : MemoryEvent). e.salience) events);
        confidence = average (map (λ (e : MemoryEvent). e.confidence) events);
        sensitivity = if is_sensitive then "private" else "normal";
        retention = "normal";
        links = map memory_link (event_ids events);
        review = record {
          needs_review = is_sensitive;
          review_reason =
              if is_sensitive
              then some "Sensitive memories contributed to this consolidation."
              else none;
          reviewed_at = none;
          reviewed_by = none;
        };
      }

  unfoldable pub build_output :
      String × String
      → GroupKey
      → List MemoryEvent
      → ConsolidationPeriod
      → String
      → Result ConsolidationOutput
  unfolding output_memory event_ids group_summary
  build_output made key events period_type period_key = do
    fresh ←
        new_event made.0 made.1
          (group_summary key (key.sensitivity_bucket == "sensitive") (length events)) "summary"
    let memory = output_memory fresh key events period_type period_key
    validate memory
    ok (record { memory = memory; source_memory_ids = event_ids events })

  -- `request.resolved_period_key()` at an instant
  unfoldable pub resolved_period_key : ConsolidationRequest → ℕ → String
  unfolding period_key_for_datetime
  resolved_period_key request instant = elim request.period_key [
    | none ↦ period_key_for_datetime env request.period_type instant
    | some period_key ↦ period_key
  ]

  -- the candidates, in the order of their ids
  unfoldable pub candidates_of : List MemoryEvent → ConsolidationRequest → String → List MemoryEvent
  unfolding consolidation_candidate filter sort_by
  candidates_of events request period_key =
      sort_by (λ (a b : MemoryEvent). is_lt (compare a.id b.id))
        (filter (λ (e : MemoryEvent). consolidation_candidate env e request period_key) events)

  module _ (made : ℕ → String × String) where
    -- the loop over the groups, with the number of memories that were made before
    unfoldable pub build_outputs :
        ℕ
        → List (GroupKey × List MemoryEvent)
        → ConsolidationPeriod
        → String
        → Result (List ConsolidationOutput)
    unfolding build_output
    build_outputs n [] period_type period_key = ok []
    build_outputs n ((key, events) ∷ groups) period_type period_key = do
      output ← build_output (made n) key events period_type period_key
      outputs ← build_outputs (suc n) groups period_type period_key
      ok (output ∷ outputs)

    -- `consolidate_memories`, with the id, the time and the instant of the report
    unfoldable pub consolidate_memories :
        String → String → ℕ → List MemoryEvent → ConsolidationRequest → Result ConsolidationReport
    unfolding resolved_period_key candidates_of group_events build_outputs planned_report
    consolidate_memories id now instant events request =
        let period_key = resolved_period_key request instant in
        let candidates = candidates_of events request period_key in
        if is_empty candidates then ok (planned_report id now request period_key [] []) else do
          outputs ← build_outputs 0 (group_events env [] candidates) request.period_type period_key
          ok (planned_report id now request period_key candidates outputs)
