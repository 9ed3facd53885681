-- ===== src/Recall.antt =====
-- crates/tree-ring-memory-core/src/recall.rs: the terms of a query, the queries that are tried, and
-- the score of a memory for a query. A score is never -0.0: its first summand is not.
use tree_ring_memory.Prelude.{
  ℕ, suc, ◌-◌, ◌/◌, ◌^◌, String, zero, Bool, not, ◌&&◌, Option, none, some, List, [], ◌∷◌, ◌++◌,
  map, ◌==◌, if◌then◌else◌, filter, any, contains, length, is_empty, join, to_ascii_lowercase,
  contains_text,
}
use Prim.Native.String.{compare, ◌++◌ as append}
use tree_ring_memory.Prelude.Maps.{entry_set}
use tree_ring_memory.Event.{MemoryEvent}
use tree_ring_memory.Event.Score.{F64, nonneg, one_units}
use tree_ring_memory.Event.Score.Arithmetic.{add, mul, div, opposite, of_nat, fraction}
use tree_ring_memory.Externals.{Externals}

abbrev pub failure_terms : List String
failure_terms =
    "error" ∷ "failure" ∷ "regression" ∷ "bug" ∷ "rejected" ∷ "rollback" ∷ "stale" ∷ "conflict"
    ∷ "security" ∷ "privacy" ∷ "mistake" ∷ []

abbrev pub heartwood_terms : List String
heartwood_terms = "preference" ∷ "rule" ∷ "constraint" ∷ "decision" ∷ "durable" ∷ []

abbrev pub seed_terms : List String
seed_terms = "planning" ∷ "roadmap" ∷ "future" ∷ "alternative" ∷ "experiment" ∷ "explore" ∷ []

-- `RecallScore`, whose ranking is the map of its factors
pub record RecallScore : Type 0 where
  pub score : F64
  pub factors : List (String × F64)

-- `remaining`: every term but the one at the index
unfoldable pub without : ℕ → List String → List String
without n [] = []
without zero (term ∷ terms) = terms
without (suc n) (term ∷ terms) = term ∷ without n terms

-- one round of the loop of `search_queries`
unfoldable pub query_without : ℕ → String → List String → List String
unfolding without contains
query_without index term query_terms =
    let remaining = without index query_terms in
    if contains (failure_terms ++ heartwood_terms ++ seed_terms) term && not (is_empty remaining)
    then join " " remaining ∷ []
    else []

unfoldable pub queries_from : ℕ → List String → List String → List String
unfolding query_without
queries_from index query_terms [] = []
queries_from index query_terms (term ∷ terms) =
    query_without index term query_terms ++ queries_from (suc index) query_terms terms

-- `source_authority`
unfoldable pub source_authority : MemoryEvent → F64
unfolding fraction
source_authority e =
    let source_type = e.source.source_type in
    if source_type == "user"
    then nonneg one_units
    else if source_type == "contract"
    then fraction 9 10
    else if source_type == "eval"
    then fraction 8 10
    else if source_type == "file"
    then fraction 7 10
    else if source_type == "tool"
    then fraction 6 10
    else if source_type == "summary"
    then fraction 5 10
    else if source_type == "manual"
    then fraction 4 10
    else fraction 3 10

module _ (env : Externals) where
  unfoldable pub terms : String → List String
  terms text = map to_ascii_lowercase (env.find_words text)

  unfoldable pub search_queries : String → List String
  unfolding terms queries_from
  search_queries query = query ∷ queries_from 0 (terms query) (terms query)

  unfoldable pub textual_match : MemoryEvent → String → F64
  unfolding terms of_nat div fraction filter join
  textual_match e query =
      let query_terms = terms query in
      let text =
        to_ascii_lowercase
          (append e.summary (append " " (append e.details (append " " (join " " e.tags))))) in
      if is_empty query_terms
      then fraction 1 10
      else div (of_nat (length (filter (λ (term : String). contains_text term text) query_terms)))
          (of_nat (length query_terms))

  -- `parse_timestamp`
  unfoldable pub parse_timestamp : String → Option ℕ
  parse_timestamp value = elim (env.parse_rfc3339 value) [
    | none ↦ env.parse_naive value
    | some instant ↦ some instant
  ]

  -- `recency_score`, from the two readings of the clock: for a time that cannot be read, and now
  unfoldable pub recency_score : ℕ × ℕ → String → F64
  unfolding parse_timestamp of_nat div opposite
  recency_score clock created_at =
      let created : ℕ = elim (parse_timestamp created_at) [
        | none ↦ clock.0
        | some instant ↦ instant
      ] in
      let age_seconds = of_nat ((clock.1 - created) / 10 ^ 9) in
      env.exp (div (div (opposite age_seconds) (of_nat 86400)) (of_nat 30))

  -- `FAILURE_TERMS.iter().any(|term| query_terms.contains(*term))`
  unfoldable pub mentions : List String → String → Bool
  unfolding terms contains any
  mentions words query = any (contains (terms query)) words

  unfoldable pub ring_boost : MemoryEvent → String → F64
  unfolding mentions fraction
  ring_boost e query =
      if e.ring == "scar" && mentions failure_terms query
      then fraction 2 10
      else if e.ring == "heartwood" && mentions heartwood_terms query
      then fraction 15 100
      else if e.ring == "seed" && mentions seed_terms query
      then fraction 12 100
      else nonneg 0

  -- `RecallScorer::score`
  unfoldable pub recall_score : ℕ × ℕ → MemoryEvent → String → RecallScore
  unfolding textual_match recency_score source_authority ring_boost add mul fraction entry_set
  recall_score clock e query =
      let textual = textual_match e query in
      let recency = recency_score clock e.created_at in
      let authority = source_authority e in
      let boost = ring_boost e query in
      let insert = λ (key : String) (value : F64). entry_set compare key (λ _. value) in
      let quarter = fraction 1 4 in
      record {
        score =
            add
              (add
                (add
                  (add (add (mul quarter textual) (mul quarter e.salience))
                    (mul quarter e.confidence))
                  (mul (fraction 2 10) recency))
                (mul (fraction 5 100) authority))
              boost;
        factors = insert "ring_boost" boost (
            insert "source_authority" authority (
              insert "recency" recency (
                insert "confidence" e.confidence
                  (insert "salience" e.salience (insert "textual_match" textual [])))));
      }
