-- ===== src/Api/Recall/Results.antt =====
-- What a recall gives.
use tree_ring_memory.Prelude.{
  ℕ, suc, ◌≤◌, String, ◌≡◌, refl, sym, subst, true, false, Bool, ◌⊎◌, inl, inr, some, List, [], ◌∷◌,
  if◌then◌else◌, All, All-map, All-take, length, length-take, take, ◌>>◌, ◌>>=◌, is_blank, arith,
  Result, ok, >>=-eq-ok, >>-eq-ok, ok-injective,
}
use tree_ring_memory.Prelude.Sorted.{IsSorted, sort-IsSorted, take-IsSorted, sort-All}
use tree_ring_memory.Prelude.Maps.{sort_by}
use tree_ring_memory.Event.{MemoryEvent}
use tree_ring_memory.Event.Score.Arithmetic.{total_lt, total_lt_asym}
use tree_ring_memory.Externals.{Externals}
use tree_ring_memory.Store.{Store, find_memory}
use tree_ring_memory.Api.Invariant.Steps.{IsConsistent}
use tree_ring_memory.Recall.{search_queries, recall_score}
use tree_ring_memory.Api.Search.{
  SearchEngine, RecallOptions, RecallResult, matches_filters, ensure_recall_deadline,
}
use tree_ring_memory.Api.Recall.{
  scores_more, result_of, push_result, first_candidates, recall_candidates, recall_results,
  recall_with_options_until,
}
use tree_ring_memory.Api.Recall.Filters.{IsVisible}
use tree_ring_memory.Api.Recall.Candidates.{first-IsHit, or_any-IsHit}

-- No result has a lower score than the one right after it.
abbrev pub IsDescending : List RecallResult → Type 0
IsDescending [] = Unit
IsDescending (r ∷ []) = Unit
IsDescending (r ∷ next ∷ rs) = (total_lt r.score next.score ≡ false) × IsDescending (next ∷ rs)

sorted-IsDescending : (rs : List RecallResult) → IsSorted scores_more rs → IsDescending rs
unfolding scores_more
sorted-IsDescending [] h = tt
sorted-IsDescending (r ∷ []) h = tt
sorted-IsDescending (r ∷ next ∷ rs) h = (h.0, sorted-IsDescending (next ∷ rs) h.1)

-- The score of the memory for the query, at one of the readings of the clock.
abbrev pub IsScored : Externals → (ℕ → ℕ × ℕ) → String → RecallResult → Type 0
IsScored env clock query r = (k : ℕ) × (r.score ≡ (recall_score env (clock k) r.memory query).score)

-- The results keep what holds of the candidates, and have their scores.
module _ (env : Externals) (engine : SearchEngine) (expired : ℕ → Bool) (clock : ℕ → ℕ × ℕ)
    (query : String) (o : RecallOptions) where
  results-All :
      (P : MemoryEvent → Type 0) (checks scored : ℕ) (ms : List MemoryEvent)
      (r : ℕ × List RecallResult)
      → All P ms
      → recall_results env engine expired clock query o checks scored ms ≡ ok r
      → All (λ (x : RecallResult). P x.memory × IsScored env clock query x) r.1
  unfolding recall_results push_result result_of
  results-All P checks scored [] r hits h =
      subst (λ (x : ℕ × List RecallResult). All Kept x.1) (ok-injective h) tt
    where
      Kept : RecallResult → Type 0
      Kept x = P x.memory × IsScored env clock query x
  results-All P checks scored (m ∷ ms) r hits h =
      split (matches_filters o m) (result_of o m (recall_score env (clock scored) m query))
        (hits.0, (scored, refl)) (λ r'. results-All P (suc checks) _ ms r' hits.1)
        (>>-eq-ok (ensure_recall_deadline (expired checks)) _ h).1
    where
      Kept : RecallResult → Type 0
      Kept x = P x.memory × IsScored env clock query x

      rest : Bool → Result (ℕ × List RecallResult)
      rest kept =
          recall_results env engine expired clock query o (suc checks)
            (if kept then suc scored else scored) ms

      split :
          (kept : Bool) (result : RecallResult)
          → Kept result
          → ((r' : ℕ × List RecallResult) → rest kept ≡ ok r' → All Kept r'.1)
          → (if kept then push_result result (rest kept) else rest kept) ≡ ok r
          → All Kept r.1
      split false result first later g = later r g
      split true result first later g =
          let (x, more, end) = >>=-eq-ok (rest true) _ g in
          subst (λ (x : ℕ × List RecallResult). All Kept x.1) (ok-injective end)
            (first, later x more)

  -- `recall_with_options_until` succeeds with the results of its candidates, sorted and cut.
  pub record IsFinished (s : Store) (results : List RecallResult) : Type 0 where
    pub candidates : ℕ × List MemoryEvent
    pub found : recall_candidates env engine expired query o s ≡ ok candidates
    pub all : ℕ × List RecallResult
    pub read : recall_results env engine expired clock query o candidates.0 0 candidates.1 ≡ ok all
    pub cut : take o.limit (sort_by scores_more all.1) ≡ results

  recall_outcomes :
      (s : Store) (results : List RecallResult)
      → recall_with_options_until env engine expired clock query o s ≡ ok results
      → (results ≡ []) ⊎ IsFinished s results
  unfolding recall_with_options_until
  recall_outcomes s results h = split (is_blank query) h
    where
      split :
          (blank : Bool)
          → (if blank
              then ok []
              else (recall_candidates env engine expired query o s >>= λ found.
                  recall_results env engine expired clock query o found.0 0 found.1 >>= λ all.
                  ensure_recall_deadline (expired all.0)
                  >> ok (take o.limit (sort_by scores_more all.1))))
            ≡ ok results
          → (results ≡ []) ⊎ IsFinished s results
      split true g = inl (sym (ok-injective g))
      split false g =
          let (candidates, found, more) =
            >>=-eq-ok (recall_candidates env engine expired query o s) _ g in
          let (all, read, rest) =
            >>=-eq-ok (recall_results env engine expired clock query o candidates.0 0 candidates.1)
              _ more in
          inr (record {
            candidates = candidates;
            found = found;
            all = all;
            read = read;
            cut = ok-injective (>>-eq-ok (ensure_recall_deadline (expired all.0)) _ rest).1;
          })

  -- Whatever the search index finds, the results of a recall on consistent tables are rows of the
  -- tables that satisfy every filter of the options: a superseded or a sensitive one is a result
  -- only where the options include it.
  pub recall-IsVisible :
      (s : Store) (results : List RecallResult)
      → IsConsistent env s
      → recall_with_options_until env engine expired clock query o s ≡ ok results
      → All
          (λ (r : RecallResult).
            (find_memory r.memory.id s.memories ≡ some r.memory) × IsVisible o r.memory)
          results
  unfolding recall_candidates
  recall-IsVisible s results c h = elim (recall_outcomes s results h) [
    | inl none_found ↦ rw none_found tt
    | inr r ↦
        let (x, first, more) =
          >>=-eq-ok (first_candidates env engine expired o s 0 [] (search_queries env query)) _
            r.found in
        let hits =
          or_any-IsHit env engine o s c expired query x r.candidates
            (first-IsHit env engine o s c expired 0 [] (search_queries env query) x first) more in
        rw (sym r.cut) (
          All-take _ o.limit _ (
            sort-All scores_more _ r.all.1 (
              All-map r.all.1 (λ x k. k.0)
                (results-All _ r.candidates.0 0 r.candidates.1 r.all hits r.read))))
  ]

  -- A recall gives at most as many results as the limit of the options, each with its score for
  -- the query at one of the readings of the clock, and no result has a lower score, in the order
  -- `total_cmp` of the doubles, than the one right after it.
  pub recall_best :
      (s : Store) (results : List RecallResult)
      → recall_with_options_until env engine expired clock query o s ≡ ok results
      → (length results ≤ o.limit) × (IsDescending results × All (IsScored env clock query) results)
  unfolding scores_more
  recall_best s results h = elim (recall_outcomes s results h) [
    | inl none_found ↦ rw none_found (omega arith, (tt, tt))
    | inr r ↦
        let scored =
          All-map r.all.1 (λ x k. k.1)
            (results-All (λ m. Unit {0}) r.candidates.0 0 r.candidates.1 r.all
              (anything r.candidates.1) r.read) in
        rw (sym r.cut) (
          length-take o.limit _,
          (
            sorted-IsDescending (take o.limit (sort_by scores_more r.all.1)) (
                take-IsSorted scores_more o.limit _
                  (sort-IsSorted scores_more (λ a b. total_lt_asym b.score a.score) r.all.1)),
            All-take _ o.limit _ (sort-All scores_more _ r.all.1 scored),
          ),
        )
  ]
    where
      anything : (ms : List MemoryEvent) → All (λ m. Unit {0}) ms
      anything [] = tt
      anything (m ∷ ms) = (tt, anything ms)
