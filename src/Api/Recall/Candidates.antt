-- ===== src/Api/Recall/Candidates.antt =====
-- The candidates of a recall are rows that its filters let through.
use tree_ring_memory.Prelude.{
  ℕ, suc, String, ◌≡◌, refl, sym, subst, ◌∙◌, true, false, Bool, ◌||◌, inl, inr, Option, none, some,
  List, [], ◌∷◌, if◌then◌else◌, Bool-cases, All, All-map, All-kept, filter, contains, is_blank,
  Result, ok, err, >>=-eq-ok, >>-eq-ok, ok-injective,
}
use tree_ring_memory.Event.{MemoryEvent}
use tree_ring_memory.Event.Validate.{validate}
use tree_ring_memory.Externals.{Externals}
use tree_ring_memory.Store.{Store, find_memory}
use tree_ring_memory.Api.Invariant.Steps.{IsConsistent}
use tree_ring_memory.Api.Invariant.Rebuilt.{All-found, collect_valid}
use tree_ring_memory.Api.Search.{
  SearchEngine, RecallOptions, passes, limited, join_rows, by_rank, candidate_limit, asks_for_none,
  search_fts_filtered_limited, search_found, search_text_filtered, ensure_recall_deadline,
  format_fts_query,
}
use tree_ring_memory.Api.Recall.{first_found, first_candidates, any_term_candidates, or_any_term}
use tree_ring_memory.Api.Recall.Filters.{IsVisible, passes-IsVisible, All-join, All-limited}

module _ (env : Externals) (engine : SearchEngine) (o : RecallOptions) (s : Store)
    (c : IsConsistent env s) where
  -- A row of the store that satisfies the filters.
  abbrev IsHit : MemoryEvent → Type 0
  IsHit m = (find_memory m.id s.memories ≡ some m) × IsVisible o m

  search-IsHit :
      (fts_query : String) (limit : Option ℕ) (ms : List MemoryEvent)
      → search_fts_filtered_limited env engine fts_query o limit s ≡ ok ms
      → All IsHit ms
  unfolding search_fts_filtered_limited
  search-IsHit fts_query limit ms h =
      let (found, matched, read) = >>=-eq-ok (engine.match_fts fts_query s.fts) _ h in
      let rows = limited limit (filter (passes o) (join_rows (by_rank found) s.memories)) in
      let good : All (λ (m : MemoryEvent). IsStored m × (passes o m ≡ true)) rows =
        All-limited _ limit _ (
          All-kept IsStored (passes o) _ (
            All-join IsStored (by_rank found) s.memories (
              All-map s.memories (λ m f. (f, (c.rows m.id m f).valid))
                (All-found s.memories c.unique)))) in
      let same : rows ≡ ms =
        ok-injective (sym (collect_valid env rows (All-map rows (λ m k. k.0.1) good)) ∙ read) in
      subst (All IsHit) same (All-map rows (λ m k. (k.0.0, passes-IsVisible o m k.1)) good)
    where
      IsStored : MemoryEvent → Type 0
      IsStored m = (find_memory m.id s.memories ≡ some m) × (validate m ≡ ok tt)

  found-IsHit :
      (limit : Option ℕ) (fts_query : Option String) (ms : List MemoryEvent)
      → search_found env engine o limit s fts_query ≡ ok ms
      → All IsHit ms
  unfolding search_found
  found-IsHit limit none ms h = subst (All IsHit) (ok-injective h) tt
  found-IsHit limit (some fts_query) ms h = search-IsHit fts_query limit ms h

  text-IsHit :
      (query : String) (limit : Option ℕ) (ms : List MemoryEvent)
      → search_text_filtered env engine query o limit s ≡ ok ms
      → All IsHit ms
  unfolding search_text_filtered
  text-IsHit query limit ms h = elim (Bool-cases (is_blank query)) [
    | inl p ↦ subst (All IsHit) (ok-injective (rw p at h)) tt
    | inr p ↦ asked (rw p at h)
  ]
    where
      asked :
          (if asks_for_none o.rings || asks_for_none o.event_types
              then ok []
              else search_found env engine o limit s (format_fts_query env query " AND "))
            ≡ ok ms
          → All IsHit ms
      asked g = elim (Bool-cases (asks_for_none o.rings || asks_for_none o.event_types)) [
        | inl p ↦ subst (All IsHit) (ok-injective (rw p at g)) tt
        | inr p ↦ found-IsHit limit (format_fts_query env query " AND ") ms (rw p at g)
      ]

  module _ (expired : ℕ → Bool) where
    pub first-IsHit :
        (checks : ℕ) (seen queries : List String) (r : ℕ × List MemoryEvent)
        → first_candidates env engine expired o s checks seen queries ≡ ok r
        → All IsHit r.1
    unfolding first_candidates first_found
    first-IsHit checks seen [] r h =
        subst (λ (x : ℕ × List MemoryEvent). All IsHit x.1) (ok-injective h) tt
    first-IsHit checks seen (query ∷ queries) r h =
        tried (contains seen query) (first-IsHit (suc checks) seen' queries r)
          (>>-eq-ok (ensure_recall_deadline (expired checks)) _ h).1
      where
        limit : Option ℕ
        limit = some (candidate_limit o.limit)

        seen' : List String
        seen' = if contains seen query then seen else query ∷ seen

        rest : Result (ℕ × List MemoryEvent)
        rest = first_candidates env engine expired o s (suc checks) seen' queries

        searched :
            (rest ≡ ok r → All IsHit r.1)
            → (found : Result (List MemoryEvent))
            → search_text_filtered env engine query o limit s ≡ found
            → first_found (suc checks) rest found ≡ ok r
            → All IsHit r.1
        searched later (err error) e g = absurd (cc g)
        searched later (ok []) e g = later g
        searched later (ok (m ∷ ms)) e g =
            subst (λ (x : ℕ × List MemoryEvent). All IsHit x.1) (ok-injective g)
              (text-IsHit query limit (m ∷ ms) e)

        tried :
            (b : Bool)
            → (rest ≡ ok r → All IsHit r.1)
            → (if b
                then rest
                else first_found
                    (suc checks)
                    rest
                    (search_text_filtered env engine query o limit s))
              ≡ ok r
            → All IsHit r.1
        tried true later g = later g
        tried false later g = searched later _ refl g

    pub or_any-IsHit :
        (query : String) (x r : ℕ × List MemoryEvent)
        → All IsHit x.1
        → or_any_term env engine expired query o s x ≡ ok r
        → All IsHit r.1
    unfolding or_any_term
    or_any-IsHit query (checks, []) r hits h =
        let (now, rest) = >>-eq-ok (ensure_recall_deadline (expired checks)) _ h in
        let (ms, found, end) =
          >>=-eq-ok (any_term_candidates env engine expired o s (format_fts_query env query " OR "))
            _ rest in
        subst (λ (x : ℕ × List MemoryEvent). All IsHit x.1) (ok-injective end)
          (any-IsHit (format_fts_query env query " OR ") ms found)
      where
        any-IsHit :
            (fts_query : Option String) (ms : List MemoryEvent)
            → any_term_candidates env engine expired o s fts_query ≡ ok ms
            → All IsHit ms
        any-IsHit none ms g = subst (All IsHit) (ok-injective (unfold any_term_candidates in g)) tt
        any-IsHit (some fts_query) ms g =
            search-IsHit fts_query (some (candidate_limit o.limit)) ms
              (unfold any_term_candidates in g)
    or_any-IsHit query (checks, m ∷ ms) r hits h =
        subst (λ (x : ℕ × List MemoryEvent). All IsHit x.1) (ok-injective h) hits
