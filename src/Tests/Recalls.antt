-- ===== src/Tests/Recalls.antt =====
-- Runs of recall and of the brief of a session.
use tree_ring_memory.Prelude.{
  ℕ, ◌≤◌, ◌≡◌, refl, Bool, false, none, some, List, [], ◌∷◌, ok, err, Result, map, All, length,
}
use tree_ring_memory.Event.{MemoryEvent}
use tree_ring_memory.Event.Score.{nonneg}
use tree_ring_memory.Event.Score.Arithmetic.{mul, fraction}
use tree_ring_memory.Store.{Store, FtsRow, find_memory}
use tree_ring_memory.Recall.{search_queries}
use tree_ring_memory.Api.{put}
use tree_ring_memory.Api.History.{migrated, call_put, history-IsConsistent}
use tree_ring_memory.Api.Invariant.Steps.{IsConsistent}
use tree_ring_memory.Api.Search.{
  SearchEngine, RecallOptions, RecallResult, candidate_limit, format_fts_query,
}
use tree_ring_memory.Api.Recall.{recall_with_options_until}
use tree_ring_memory.Api.Recall.Filters.{IsVisible}
use tree_ring_memory.Api.Recall.Results.{IsDescending, IsScored, recall-IsVisible, recall_best}
use tree_ring_memory.Api.Recall.Session.{SessionRecallScope, recall_for_session_timeout}
use tree_ring_memory.Api.Recall.Session.Shown.{session_told}
use tree_ring_memory.Api.Recall.Session.Brief.{IsBrief}
use tree_ring_memory.Tests.Data.{note, env, worker}
use tree_ring_memory.Tests.Program.{program}

-- An index that finds every row, and a calendar that knows no day.
abbrev engine : SearchEngine
engine = record {
  match_fts = λ query rows. ok (map (λ (row : FtsRow). (nonneg 0, row)) rows);
  julianday = λ text. none;
}

abbrev shared_note : MemoryEvent
shared_note = record note { project = some "p"; ring = "scar"; expires_at = none }

abbrev stored : Store
stored = (put env "t1" worker shared_note (migrated "t0")).0

abbrev options : RecallOptions
options = record {
  project = some "p";
  agent_profile = none;
  workflow_id = none;
  session_id = none;
  scope = none;
  rings = some ("scar" ∷ []);
  event_types = none;
  include_sensitive = false;
  include_superseded = false;
  limit = 3;
  explain_ranking = false;
}

abbrev session : SessionRecallScope
session = record {
  project = "q";
  project_alias = some "p";
  agent_profile = "worker";
  workflow_id = "w";
  session_id = "s";
}

abbrev clock : ℕ → ℕ × ℕ
clock k = (0, 0)

abbrev in_time : ℕ → Bool
in_time check = false

product_of_tenths :
    mul (fraction 1 10) (fraction 2 10) ≡ fraction 1441151880758559 72057594037927936
unfolding program
product_of_tenths = refl

queries_tried : search_queries env "cache failure" ≡ "cache failure" ∷ "cache" ∷ []
unfolding program
queries_tried = refl

query_formatted : format_fts_query env "cache failure" " OR " ≡ some "\"cache\" OR \"failure\""
unfolding program
query_formatted = refl

limits : (candidate_limit 1 ≡ 256) × (candidate_limit 8 ≡ 1024) × (candidate_limit 100 ≡ 2048)
unfolding program
limits = (refl, refl, refl)

stored-IsConsistent : IsConsistent env stored
unfolding program
stored-IsConsistent = history-IsConsistent env "t0" (call_put "t1" worker shared_note ∷ [])

abbrev results_in : Result (List RecallResult) → List RecallResult
results_in (ok results) = results
results_in (err error) = []

abbrev recalled : Result (List RecallResult)
recalled = recall_with_options_until env engine in_time clock "cache failure" options stored

abbrev told : Result (List RecallResult)
told =
    recall_for_session_timeout env engine (nonneg 7) in_time clock (ok 5000) (ok tt) false (ok tt)
      none session 4 stored

one_recalled : map (λ (r : RecallResult). r.memory.id) (results_in recalled) ≡ "mem_1" ∷ []
unfolding program
one_recalled = refl

recalls : recalled ≡ ok (results_in recalled)
unfolding program
recalls = refl

one_told : map (λ (r : RecallResult). r.memory.id) (results_in told) ≡ "mem_1" ∷ []
unfolding program
one_told = refl

tells : told ≡ ok (results_in told)
unfolding program
tells = refl

recall-IsVisible_example :
    All
      (λ (r : RecallResult).
        (find_memory r.memory.id stored.memories ≡ some r.memory) × IsVisible options r.memory)
      (results_in recalled)
recall-IsVisible_example =
    recall-IsVisible env engine in_time clock "cache failure" options stored (results_in recalled)
      stored-IsConsistent recalls

recall_best_example :
    (length (results_in recalled) ≤ 3)
    × (IsDescending (results_in recalled)
        × All (IsScored env clock "cache failure") (results_in recalled))
recall_best_example =
    recall_best env engine in_time clock "cache failure" options stored (results_in recalled)
      recalls

session_told_example :
    (length (results_in told) ≤ 4)
    × All
        (λ (r : RecallResult).
          (find_memory r.memory.id stored.memories ≡ some r.memory)
          × IsBrief engine (nonneg 7) session stored.tombstones r.memory)
        (results_in told)
session_told_example =
    session_told env engine (nonneg 7) in_time clock session stored stored-IsConsistent (ok 5000)
      (ok tt) (ok tt) false none 4 (results_in told) tells
