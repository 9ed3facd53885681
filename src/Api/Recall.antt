-- ===== src/Api/Recall.antt =====
-- crates/tree-ring-memory-sqlite/src/lib.rs and session_recall.rs: recall by a query, and the brief
-- of a session. The readings of the clock are arguments: `expired` says of each check of the
-- deadline, in their order, whether a deadline is given and has come, and `clock` gives the two
-- times that the score of each memory reads.
pub mod Filters
pub mod Candidates
pub mod Results
pub mod Session
use tree_ring_memory.Prelude.{
  ℕ, suc, String, Bool, Option, none, some, List, [], ◌∷◌, if◌then◌else◌, contains, take, is_blank,
  Result, ok, err, ◌>>=◌, ◌>>◌,
}
use tree_ring_memory.Prelude.Maps.{sort_by}
use tree_ring_memory.Event.{MemoryEvent}
use tree_ring_memory.Event.Score.Arithmetic.{total_lt}
use tree_ring_memory.Externals.{Externals}
use tree_ring_memory.Store.{Store}
use tree_ring_memory.Recall.{RecallScore, search_queries, recall_score}
use tree_ring_memory.Api.Search.{
  SearchEngine, RecallOptions, RecallResult, candidate_limit, matches_filters,
  ensure_recall_deadline, format_fts_query, search_fts_filtered_limited, search_text_filtered,
}

-- `right.score.total_cmp(&left.score)` is less
unfoldable pub scores_more : RecallResult → RecallResult → Bool
unfolding total_lt
scores_more left right = total_lt right.score left.score

-- the ranking of a result, if it is to be explained
unfoldable pub result_of : RecallOptions → MemoryEvent → RecallScore → RecallResult
result_of o memory scored = record {
  memory = memory;
  score = scored.score;
  ranking = if o.explain_ranking then scored.factors else [];
}

-- `if !candidates.is_empty() { break; }`
unfoldable pub first_found :
    ℕ → Result (ℕ × List MemoryEvent) → Result (List MemoryEvent) → Result (ℕ × List MemoryEvent)
first_found checks rest (err error) = err error
first_found checks rest (ok []) = rest
first_found checks rest (ok (memory ∷ memories)) = ok (checks, memory ∷ memories)

-- `results.push(…)` in front of the results of the memories that follow
unfoldable pub push_result :
    RecallResult → Result (ℕ × List RecallResult) → Result (ℕ × List RecallResult)
push_result result rest = do (checks, results) ← rest; ok (checks, result ∷ results)

module _ (env : Externals) (engine : SearchEngine) (expired : ℕ → Bool) where
  -- the loop over the queries, from the checks of the deadline that were made and the queries seen
  unfoldable pub first_candidates :
      RecallOptions → Store → ℕ → List String → List String → Result (ℕ × List MemoryEvent)
  unfolding ensure_recall_deadline contains search_text_filtered candidate_limit first_found
  first_candidates o s checks seen [] = ok (checks, [])
  first_candidates o s checks seen (query ∷ queries) = do
    ensure_recall_deadline (expired checks)
    let seen' = if contains seen query then seen else query ∷ seen
    let rest = first_candidates o s (suc checks) seen' queries
    if contains seen query
        then rest
        else first_found (suc checks) rest
            (search_text_filtered env engine query o (some (candidate_limit o.limit)) s)

  unfoldable pub any_term_candidates :
      RecallOptions → Store → Option String → Result (List MemoryEvent)
  unfolding search_fts_filtered_limited candidate_limit
  any_term_candidates o s none = ok []
  any_term_candidates o s (some fts_query) =
      search_fts_filtered_limited env engine fts_query o (some (candidate_limit o.limit)) s

  -- the candidates, and the checks of the deadline that were made for them
  -- the search for any of the terms, where none had all of them
  unfoldable pub or_any_term :
      String → RecallOptions → Store → ℕ × List MemoryEvent → Result (ℕ × List MemoryEvent)
  unfolding any_term_candidates ensure_recall_deadline format_fts_query
  or_any_term query o s (checks, []) = do
    ensure_recall_deadline (expired checks)
    candidates ← any_term_candidates o s (format_fts_query env query " OR ")
    ok (suc checks, candidates)
  or_any_term query o s (checks, memory ∷ memories) = ok (checks, memory ∷ memories)

  -- the candidates, and the checks of the deadline that were made for them
  unfoldable pub recall_candidates : String → RecallOptions → Store → Result (ℕ × List MemoryEvent)
  unfolding first_candidates or_any_term search_queries
  recall_candidates query o s =
      first_candidates o s 0 [] (search_queries env query) >>= or_any_term query o s

  module _ (clock : ℕ → ℕ × ℕ) where
    -- the loop over the candidates, from the checks of the deadline and the scores that were made
    unfoldable pub recall_results :
        String → RecallOptions → ℕ → ℕ → List MemoryEvent → Result (ℕ × List RecallResult)
    unfolding ensure_recall_deadline matches_filters result_of push_result recall_score
    recall_results query o checks scored [] = ok (checks, [])
    recall_results query o checks scored (memory ∷ memories) = do
      ensure_recall_deadline (expired checks)
      let kept = matches_filters o memory
      let rest = recall_results query o (suc checks) (if kept then suc scored else scored) memories
      if kept
          then push_result (result_of o memory (recall_score env (clock scored) memory query)) rest
          else rest

    -- `recall_with_options_until`; `recall_with_options` and `recall` have no deadline
    unfoldable pub recall_with_options_until :
        String → RecallOptions → Store → Result (List RecallResult)
    unfolding recall_candidates recall_results ensure_recall_deadline sort_by scores_more take
    recall_with_options_until query o s = if is_blank query then ok [] else do
      (checks, candidates) ← recall_candidates query o s
      (checks', results) ← recall_results query o checks 0 candidates
      ensure_recall_deadline (expired checks')
      ok (take o.limit (sort_by scores_more results))
