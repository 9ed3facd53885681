-- ===== src/Api/Recall/Session.antt =====
-- crates/tree-ring-memory-sqlite/src/session_recall.rs: the brief of a session. The day that SQLite
-- gives for now is an argument.
pub mod Brief
pub mod Shown
use tree_ring_memory.Prelude.{
  ℕ, suc, String, Bool, true, false, not, ◌&&◌, ◌||◌, Option, none, some, List, [], ◌∷◌, ◌==◌, ltb,
  eqb, if◌then◌else◌, contains, filter, take, is_none, option_eq, trim, Result, ok, err, ◌>>=◌,
  ◌>>◌,
}
use Prim.Native.String.{compare}
use text.Mathlib.Text.{is_lt}
use tree_ring_memory.Prelude.Maps.{sort_by}
use tree_ring_memory.Event.{MemoryEvent}
use tree_ring_memory.Event.Score.{F64, nonneg, lt}
use tree_ring_memory.Event.Score.Arithmetic.{add, fraction, total_lt}
use tree_ring_memory.Externals.{Externals}
use tree_ring_memory.Store.{Store, FtsRow}
use tree_ring_memory.Store.Write.{event_from_row}
use tree_ring_memory.Recall.{search_queries, recall_score}
use tree_ring_memory.Api.Search.{
  SearchEngine, RecallResult, limited, join_rows, candidate_limit, ensure_recall_deadline,
  format_fts_query, with_recall_timeout,
}
use tree_ring_memory.Api.Recall.{push_result}

pub record SessionRecallScope : Type 0 where
  pub project : String
  pub project_alias : Option String
  pub agent_profile : String
  pub workflow_id : String
  pub session_id : String

abbrev pub shared_scopes : List String
shared_scopes = "global" ∷ "project" ∷ "tool" ∷ "eval" ∷ "manual" ∷ "dox" ∷ "revolve" ∷ []

-- a lexicographic order: whether the first keys are in order, in the other order, and the rest
unfoldable pub then_before : Bool → Bool → Bool → Bool
then_before less more rest = less || not more && rest

-- `ORDER BY rank, memories.id`
unfoldable pub rank_before : F64 × FtsRow → F64 × FtsRow → Bool
unfolding then_before lt
rank_before a b = then_before (lt a.0 b.0) (lt b.0 a.0) (is_lt (compare a.1.id b.1.id))

-- `CASE memories.ring WHEN 'scar' THEN 0 WHEN 'heartwood' THEN 1 ELSE 2 END`
unfoldable pub ring_order : String → ℕ
ring_order ring = if ring == "scar" then 0 else if ring == "heartwood" then 1 else 2

-- the order of the rows of a brief without a query. The statement reads the columns of the scores,
-- for which the scores of the decoded event stand here.
unfoldable pub startup_before : MemoryEvent → MemoryEvent → Bool
unfolding then_before lt ring_order
startup_before a b =
    then_before (ltb (ring_order a.ring) (ring_order b.ring))
      (ltb (ring_order b.ring) (ring_order a.ring))
      (then_before (lt b.salience a.salience) (lt a.salience b.salience) (
        then_before (lt b.confidence a.confidence) (lt a.confidence b.confidence) (
          then_before (is_lt (compare b.created_at a.created_at))
            (is_lt (compare a.created_at b.created_at)) (is_lt (compare a.id b.id)))))

-- the order of the results: by the score from above, then by the id
unfoldable pub brief_before : RecallResult → RecallResult → Bool
unfolding then_before total_lt
brief_before left right =
    then_before (total_lt right.score left.score) (total_lt left.score right.score)
      (is_lt (compare left.memory.id right.memory.id))

-- what is added to the score of a memory that no query asked for
unfoldable pub startup_boost : String → F64
unfolding fraction
startup_boost ring =
    if ring == "scar"
    then fraction 2 10
    else if ring == "heartwood"
    then fraction 15 100
    else nonneg 0

-- `memories.project IN (?, ?)`
unfoldable pub in_project : SessionRecallScope → Option String → Bool
in_project scope none = false
in_project scope (some project) =
    project == scope.project
    || project == elim scope.project_alias [ none ↦ scope.project | some alias ↦ alias ]

-- the disjunction over the scopes
unfoldable pub in_partition : SessionRecallScope → MemoryEvent → Bool
unfolding contains
in_partition scope row =
    contains shared_scopes row.scope
    || (row.scope == "agent" && option_eq row.agent_profile (some scope.agent_profile)
        || (row.scope == "workflow" && option_eq row.workflow_id (some scope.workflow_id)
            || row.scope == "session" && option_eq row.session_id (some scope.session_id)))

module _ (engine : SearchEngine) (today : F64) where
  -- `julianday(memories.expires_at) > julianday('now')`, where NULL is not greater
  unfoldable pub is_later : Option F64 → Bool
  unfolding lt
  is_later none = false
  is_later (some day) = lt today day

  unfoldable pub is_live : Option String → Bool
  unfolding is_later
  is_live none = true
  is_live (some expires_at) = is_later (engine.julianday expires_at)

  -- the `WHERE` of the candidates
  unfoldable pub is_shown : SessionRecallScope → List String → MemoryEvent → Bool
  unfolding in_project in_partition is_live contains
  is_shown scope tombstones row =
      in_project scope row.project
      && (row.sensitivity == "normal"
          && (is_none row.superseded_by
              && (is_live row.expires_at
                  && (not (contains tombstones row.id) && in_partition scope row))))

  -- the rows of the query
  unfoldable pub session_rows :
      Option String → SessionRecallScope → ℕ → Store → Result (List MemoryEvent)
  unfolding is_shown limited candidate_limit sort_by startup_before rank_before join_rows filter
  session_rows none scope limit s = ok (
      limited (some (candidate_limit limit))
        (sort_by startup_before (filter (is_shown scope s.tombstones) s.memories)))
  session_rows (some fts) scope limit s = do
    found ← engine.match_fts fts s.fts
    ok (
        limited (some (candidate_limit limit))
          (filter (is_shown scope s.tombstones) (join_rows (sort_by rank_before found) s.memories)))

-- `if !results.is_empty() { return Ok(results); }`, and the queries that follow
unfoldable pub or_following :
    (ℕ → Result (List RecallResult)) → Result (ℕ × List RecallResult) → Result (List RecallResult)
or_following following (err error) = err error
or_following following (ok (checks, [])) = following checks
or_following following (ok (checks, result ∷ results)) = ok (result ∷ results)

module _ (env : Externals) (engine : SearchEngine) (today : F64) (expired : ℕ → Bool)
    (clock : ℕ → ℕ × ℕ) where
  -- the score of a memory, with the boost of a brief without a query
  unfoldable pub brief_result : Bool → String → ℕ → MemoryEvent → RecallResult
  unfolding recall_score add startup_boost
  brief_result startup query scored memory =
      let score = (recall_score env (clock scored) memory query).score in
      record {
        memory = memory;
        score = if startup then add score (startup_boost memory.ring) else score;
        ranking = [];
      }

  -- the loop over the rows
  unfoldable pub session_results :
      Bool → String → ℕ → ℕ → List MemoryEvent → Result (ℕ × List RecallResult)
  unfolding ensure_recall_deadline event_from_row brief_result push_result
  session_results startup query checks scored [] = ok (checks, [])
  session_results startup query checks scored (row ∷ rows) = do
    ensure_recall_deadline (expired checks)
    memory ← event_from_row env row
    push_result (brief_result startup query scored memory)
        (session_results startup query (suc checks) (suc scored) rows)

  -- `session_candidates`, from the checks of the deadline that were made
  unfoldable pub session_candidates :
      ℕ → Option String → String → SessionRecallScope → ℕ → Store → Result (ℕ × List RecallResult)
  unfolding ensure_recall_deadline session_rows session_results sort_by brief_before take
  session_candidates checks fts query scope limit s = do
    ensure_recall_deadline (expired checks)
    if eqb limit 0 then ok (suc checks, []) else (do
      rows ← session_rows engine today fts scope limit s
      (checks', results) ← session_results (is_none fts) query (suc checks) 0 rows
      ensure_recall_deadline (expired checks')
      ok (suc checks', take limit (sort_by brief_before results)))

  module _ (query : String) (scope : SessionRecallScope) (limit : ℕ) (s : Store) where
    -- the last search, for any of the terms
    unfoldable pub session_any_term : ℕ → Option String → Result (List RecallResult)
    unfolding session_candidates
    session_any_term checks none = ok []
    session_any_term checks (some fts) = do
      (_, results) ← session_candidates checks (some fts) query scope limit s
      ok results

    -- the loop over the queries
    unfoldable pub session_queries : List String → ℕ → Result (List RecallResult)
    unfolding session_any_term session_candidates format_fts_query or_following
    session_queries [] checks = session_any_term checks (format_fts_query env query " OR ")
    session_queries (search_query ∷ queries) checks =
        let following = session_queries queries in
        elim (format_fts_query env search_query " AND ") [
          | none ↦ following checks
          | some fts ↦
              or_following following (session_candidates checks (some fts) query scope limit s)
        ]

  -- the brief without a query
  unfoldable pub startup_brief : SessionRecallScope → ℕ → Store → Result (List RecallResult)
  unfolding session_candidates
  startup_brief scope limit s = do
    (_, results) ← session_candidates 0 none "" scope limit s
    ok results

  -- the brief, within the timeout
  unfoldable pub session_brief :
      Option String → SessionRecallScope → ℕ → Store → Result (List RecallResult)
  unfolding session_queries startup_brief search_queries trim
  session_brief none scope limit s = startup_brief scope limit s
  session_brief (some query) scope limit s =
      if trim query == ""
      then startup_brief scope limit s
      else session_queries (trim query) scope limit s (search_queries env (trim query)) 0

  unfoldable pub recall_for_session_timeout :
      Result ℕ
      → Result (Unit {0})
      → Bool
      → Result (Unit {0})
      → Option String
      → SessionRecallScope
      → ℕ
      → Store
      → Result (List RecallResult)
  unfolding with_recall_timeout session_brief
  recall_for_session_timeout busy_timeout lowered timed_out restored query scope limit s =
      with_recall_timeout busy_timeout lowered timed_out restored
        (session_brief query scope limit s)
