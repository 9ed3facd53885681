-- ===== src/Api/Recall/Session/Shown.antt =====
-- What the brief of a session shows.
use tree_ring_memory.Prelude.{
  ℕ, suc, ◌≤◌, String, ◌≡◌, refl, sym, subst, ◌∙◌, true, false, Bool, inl, inr, Option, none, some,
  List, [], ◌∷◌, ◌==◌, eqb, if◌then◌else◌, Bool-cases, All, All-map, All-kept, All-take, length,
  length-take, filter, take, is_none, arith, trim, Result, ok, err, ◌>>=◌, ◌>>◌, >>=-eq-ok,
  >>-eq-ok, ok-injective,
}
use tree_ring_memory.Prelude.Sorted.{sort-All}
use tree_ring_memory.Prelude.Maps.{sort_by}
use tree_ring_memory.Event.{MemoryEvent}
use tree_ring_memory.Event.Score.{F64}
use tree_ring_memory.Event.Validate.{validate}
use tree_ring_memory.Externals.{Externals}
use tree_ring_memory.Legacy.Laws.{normalize_identity_valid}
use tree_ring_memory.Store.{Store, find_memory}
use tree_ring_memory.Store.Write.{event_from_row}
use tree_ring_memory.Recall.{search_queries}
use tree_ring_memory.Api.Invariant.Steps.{IsConsistent}
use tree_ring_memory.Api.Invariant.Rebuilt.{All-found}
use tree_ring_memory.Api.Search.{
  SearchEngine, RecallResult, candidate_limit, ensure_recall_deadline, format_fts_query,
  with_recall_timeout,
}
use tree_ring_memory.Api.Recall.{push_result}
use tree_ring_memory.Api.Recall.Filters.{All-join, All-limited}
use tree_ring_memory.Api.Recall.Session.{
  SessionRecallScope, rank_before, startup_before, brief_before, is_shown, session_rows,
  brief_result, session_results, session_candidates, or_following, session_any_term,
  session_queries, startup_brief, session_brief, recall_for_session_timeout,
}
use tree_ring_memory.Api.Recall.Session.Brief.{IsBrief, shown-IsBrief}

module _ (env : Externals) (engine : SearchEngine) (today : F64) (expired : ℕ → Bool)
    (clock : ℕ → ℕ × ℕ) (scope : SessionRecallScope) (s : Store) (c : IsConsistent env s) where
  -- A row that a session may be told of.
  abbrev IsTold : MemoryEvent → Type 0
  IsTold m = (find_memory m.id s.memories ≡ some m) × IsBrief engine today scope s.tombstones m

  abbrev IsRead : MemoryEvent → Type 0
  IsRead m = IsTold m × (validate m ≡ ok tt)

  abbrev IsStored : MemoryEvent → Type 0
  IsStored m = (find_memory m.id s.memories ≡ some m) × (validate m ≡ ok tt)

  stored : All IsStored s.memories
  stored = All-map s.memories (λ m f. (f, (c.rows m.id m f).valid)) (All-found s.memories c.unique)

  kept-IsRead :
      (rows : List MemoryEvent)
      → All IsStored rows
      → All IsRead (filter (is_shown engine today scope s.tombstones) rows)
  kept-IsRead rows h =
      All-map (filter (is_shown engine today scope s.tombstones) rows)
        (λ m k. ((k.0.0, shown-IsBrief engine today scope s.tombstones m k.1), k.0.1))
        (All-kept IsStored _ rows h)

  rows-IsRead :
      (fts : Option String) (limit : ℕ) (rows : List MemoryEvent)
      → session_rows engine today fts scope limit s ≡ ok rows
      → All IsRead rows
  unfolding session_rows
  rows-IsRead none limit rows h = subst (All IsRead) (ok-injective h) (
      All-limited IsRead (some (candidate_limit limit)) _
        (sort-All startup_before IsRead _ (kept-IsRead s.memories stored)))
  rows-IsRead (some fts) limit rows h =
      let (found, matched, end) = >>=-eq-ok (engine.match_fts fts s.fts) _ h in
      subst (All IsRead) (ok-injective end) (
        All-limited IsRead (some (candidate_limit limit)) _
          (kept-IsRead _ (All-join IsStored (sort_by rank_before found) s.memories stored)))

  -- Results of which each may be told, and no more of them than the limit.
  abbrev IsAnswer : ℕ → List RecallResult → Type 0
  IsAnswer limit results =
      (length results ≤ limit) × All (λ (r : RecallResult). IsTold r.memory) results

  results-All :
      (startup : Bool) (query : String) (checks scored : ℕ) (rows : List MemoryEvent)
      (r : ℕ × List RecallResult)
      → All IsRead rows
      → session_results env engine today expired clock startup query checks scored rows ≡ ok r
      → All (λ (x : RecallResult). IsTold x.memory) r.1
  unfolding session_results push_result event_from_row brief_result
  results-All startup query checks scored [] r hits h =
      subst (λ (x : ℕ × List RecallResult). All (λ (x : RecallResult). IsTold x.memory) x.1)
        (ok-injective h) tt
  results-All startup query checks scored (row ∷ rows) r hits h =
      let (now, rest) = >>-eq-ok (ensure_recall_deadline (expired checks)) _ h in
      let (m, read, more) = >>=-eq-ok (event_from_row env row) _ rest in
      let (x, others, end) =
        >>=-eq-ok
          (session_results env engine today expired clock startup query (suc checks) (suc scored)
            rows)
          _ more in
      let same : row ≡ m = ok-injective (
        sym (unfold event_from_row in rw (normalize_identity_valid env row hits.0.1) refl)
        ∙ read) in
      subst (λ (x : ℕ × List RecallResult). All (λ (x : RecallResult). IsTold x.memory) x.1)
        (ok-injective end)
        (
          subst IsTold same hits.0.0,
          results-All startup query (suc checks) (suc scored) rows x hits.1 others,
        )

  candidates-IsAnswer :
      (checks : ℕ) (fts : Option String) (query : String) (limit : ℕ) (r : ℕ × List RecallResult)
      → session_candidates env engine today expired clock checks fts query scope limit s ≡ ok r
      → IsAnswer limit r.1
  unfolding session_candidates
  candidates-IsAnswer checks fts query limit r h =
      split (eqb limit 0) (>>-eq-ok (ensure_recall_deadline (expired checks)) _ h).1
    where
      Answer : ℕ × List RecallResult → Type 0
      Answer x = IsAnswer limit x.1

      split :
          (none_wanted : Bool)
          → (if none_wanted
              then ok (suc checks, [])
              else (session_rows engine today fts scope limit s >>= λ rows.
                  session_results env engine today expired clock
                    (is_none fts)
                    query
                    (suc checks)
                    0
                    rows
                  >>= λ x.
                      ensure_recall_deadline (expired x.0)
                      >> ok (suc (x.0), take limit (sort_by brief_before x.1))))
            ≡ ok r
          → Answer r
      split true g = subst Answer (ok-injective g) (omega arith, tt)
      split false g =
          let (rows, found, more) = >>=-eq-ok (session_rows engine today fts scope limit s) _ g in
          let (x, read, rest) =
            >>=-eq-ok
              (session_results env engine today expired clock (is_none fts) query (suc checks) 0
                rows)
              _ more in
          let told =
            results-All (is_none fts) query (suc checks) 0 rows x (rows-IsRead fts limit rows found)
              read in
          subst Answer (ok-injective (>>-eq-ok (ensure_recall_deadline (expired x.0)) _ rest).1)
            (length-take limit _, All-take _ limit _ (sort-All brief_before _ x.1 told))

  queries-IsAnswer :
      (query : String) (limit : ℕ) (queries : List String) (checks : ℕ)
      (results : List RecallResult)
      → session_queries env engine today expired clock query scope limit s queries checks
        ≡ ok results
      → IsAnswer limit results
  unfolding session_queries session_any_term or_following
  queries-IsAnswer query limit [] checks results h = last (format_fts_query env query " OR ") h
    where
      last :
          (fts : Option String)
          → session_any_term env engine today expired clock query scope limit s checks fts
            ≡ ok results
          → IsAnswer limit results
      last none g = subst (IsAnswer limit) (ok-injective g) (omega arith, tt)
      last (some fts) g =
          let (x, found, end) =
            >>=-eq-ok
              (session_candidates env engine today expired clock checks (some fts) query scope limit
                s)
              _ g in
          subst (IsAnswer limit) (ok-injective end)
            (candidates-IsAnswer checks (some fts) query limit x found)
  queries-IsAnswer query limit (q ∷ queries) checks results h =
      next (λ n. queries-IsAnswer query limit queries n results) (format_fts_query env q " AND ") h
    where
      following : ℕ → Result (List RecallResult)
      following = session_queries env engine today expired clock query scope limit s queries

      answered :
          (fts : String) (later : (n : ℕ) → following n ≡ ok results → IsAnswer limit results)
          (found : Result (ℕ × List RecallResult))
          → session_candidates env engine today expired clock checks (some fts) query scope limit s
            ≡ found
          → or_following following found ≡ ok results
          → IsAnswer limit results
      answered fts later (err error) e g = absurd (cc g)
      answered fts later (ok (n, [])) e g = later n g
      answered fts later (ok (n, x ∷ xs)) e g =
          subst (IsAnswer limit) (ok-injective g)
            (candidates-IsAnswer checks (some fts) query limit (n, x ∷ xs) e)

      next :
          ((n : ℕ) → following n ≡ ok results → IsAnswer limit results)
          → (fts : Option String)
          → elim fts [
            | none ↦ following checks
            | some fts ↦ or_following following (
                session_candidates env engine today expired clock checks
                  (some fts)
                  query
                  scope
                  limit
                  s)
          ]
            ≡ ok results
          → IsAnswer limit results
      next later none g = later checks g
      next later (some fts) g = answered fts later _ refl g

  startup-IsAnswer :
      (limit : ℕ) (results : List RecallResult)
      → startup_brief env engine today expired clock scope limit s ≡ ok results
      → IsAnswer limit results
  unfolding startup_brief
  startup-IsAnswer limit results h =
      let (x, found, end) =
        >>=-eq-ok (session_candidates env engine today expired clock 0 none "" scope limit s) _ h in
      subst (IsAnswer limit) (ok-injective end) (candidates-IsAnswer 0 none "" limit x found)

  brief-IsAnswer :
      (query : Option String) (limit : ℕ) (results : List RecallResult)
      → session_brief env engine today expired clock query scope limit s ≡ ok results
      → IsAnswer limit results
  unfolding session_brief
  brief-IsAnswer none limit results h = startup-IsAnswer limit results h
  brief-IsAnswer (some query) limit results h = elim (Bool-cases (trim query == "")) [
    | inl blank ↦ startup-IsAnswer limit results (rw blank at h)
    | inr asked ↦
        queries-IsAnswer (trim query) limit (search_queries env (trim query)) 0 results
          (rw asked at h)
  ]

  -- Whatever the search index finds, the brief of a session on consistent tables has at most as
  -- many results as its limit, and each is a row of the tables of the project of the session or of
  -- its alias that is not sensitive, superseded, expired or redacted, and that is shared or belongs
  -- to the agent, the workflow or the session itself.
  pub session_told :
      (busy_timeout : Result ℕ) (lowered restored : Result (Unit {0})) (timed_out : Bool)
      (query : Option String) (limit : ℕ) (results : List RecallResult)
      → recall_for_session_timeout env engine today expired clock busy_timeout lowered timed_out
          restored query scope limit s
        ≡ ok results
      → (length results ≤ limit)
        × All
            (λ (r : RecallResult).
              (find_memory r.memory.id s.memories ≡ some r.memory)
              × IsBrief engine today scope s.tombstones r.memory)
            results
  unfolding recall_for_session_timeout with_recall_timeout
  session_told busy_timeout lowered restored timed_out query limit results h =
      let (old, read, h1) = >>=-eq-ok busy_timeout _ h in
      let (set, lower, h2) = >>=-eq-ok lowered _ h1 in
      let (in_time, h3) = >>-eq-ok _ _ h2 in
      let (back, restore, h4) = >>=-eq-ok restored _ h3 in brief-IsAnswer query limit results h4
