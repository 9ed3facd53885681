-- ===== src/Api/Search.antt =====
-- crates/tree-ring-memory-sqlite/src/lib.rs: the text searches, and recall. SQLite's full text index
-- and its calendar are parameters.
use tree_ring_memory.Prelude.{
  ℕ, ◌*◌, ◌-◌, ◌^◌, String, Bool, false, not, ◌&&◌, ◌||◌, Option, none, some, List, [], ◌∷◌, ◌++◌,
  map, ◌==◌, ltb, if◌then◌else◌, filter, contains, take, is_empty, is_blank, join, double_quotes,
  Result, ok, err, validation, ensure, ◌>>=◌, ◌>>◌,
}
use Prim.Native.String.{◌++◌ as append}
use tree_ring_memory.Prelude.Maps.{sort_by}
use tree_ring_memory.Event.{MemoryEvent}
use tree_ring_memory.Event.Score.{F64, lt}
use tree_ring_memory.Externals.{Externals}
use tree_ring_memory.Store.{Store, FtsRow}
use tree_ring_memory.Consolidation.{differs}
use tree_ring_memory.Recall.{terms}
use tree_ring_memory.Api.Maintain.{collect_rows, list_all, is_current}

-- SQLite on the tables: what a search of the index finds, and `julianday`.
pub record SearchEngine : Type 0 where
  -- `memory_fts MATCH ?`: the rows that match with their rank, in the order that they are found
  pub match_fts : String → List FtsRow → Result (List (F64 × FtsRow))
  -- `julianday(text)`, NULL where the text is no time
  pub julianday : String → Option F64

pub record RecallOptions : Type 0 where
  pub project : Option String
  pub agent_profile : Option String
  pub workflow_id : Option String
  pub session_id : Option String
  pub scope : Option String
  pub rings : Option (List String)
  pub event_types : Option (List String)
  pub include_sensitive : Bool
  pub include_superseded : Bool
  pub limit : ℕ
  pub explain_ranking : Bool

pub record RecallResult : Type 0 where
  pub memory : MemoryEvent
  pub score : F64
  pub ranking : List (String × F64)

unfoldable pub filler_terms : List String
filler_terms =
    "a" ∷ "an" ∷ "and" ∷ "about" ∷ "are" ∷ "for" ∷ "in" ∷ "is" ∷ "not" ∷ "of" ∷ "on" ∷ "or" ∷ "the"
    ∷ "to" ∷ "what" ∷ []

-- `rings.is_some_and(|rings| !rings.contains(&event.ring))`
unfoldable pub misses : Option (List String) → String → Bool
unfolding contains
misses none value = false
misses (some values) value = not (contains values value)

unfoldable pub misses_text : Option String → String → Bool
misses_text none value = false
misses_text (some wanted) value = not (value == wanted)

-- the `WHERE` of `search_fts_filtered_limited`, from the filters that are pushed to it
unfoldable pub passes : RecallOptions → MemoryEvent → Bool
unfolding is_current differs misses misses_text
passes o row =
    is_current o.include_superseded row
    && (not (differs o.project row.project)
        && (not (differs o.agent_profile row.agent_profile)
            && (not (differs o.workflow_id row.workflow_id)
                && (not (differs o.session_id row.session_id)
                    && (not (misses_text o.scope row.scope)
                        && (not (misses o.rings row.ring)
                            && (not (misses o.event_types row.event_type)
                                && (o.include_sensitive || row.sensitivity == "normal"))))))))

unfoldable pub matches_filters : RecallOptions → MemoryEvent → Bool
unfolding differs misses misses_text
matches_filters o e =
    if differs o.project e.project
    then false
    else if differs o.agent_profile e.agent_profile
    then false
    else if differs o.workflow_id e.workflow_id
    then false
    else if differs o.session_id e.session_id
    then false
    else if misses_text o.scope e.scope
    then false
    else if misses o.rings e.ring
    then false
    else if misses o.event_types e.event_type
    then false
    else not (not o.include_sensitive && not (e.sensitivity == "normal"))

-- `LIMIT ?` with `limit as i64`: a negative limit is none
unfoldable pub limited {ℓ} : {A : Type ℓ} → Option ℕ → List A → List A
unfolding take
limited none rows = rows
limited (some limit) rows = if ltb limit (2 ^ 63) then take limit rows else rows

-- `JOIN memories ON memories.id = memory_fts.id`, in the order of the rows of the index
unfoldable pub join_rows : List (F64 × FtsRow) → List MemoryEvent → List MemoryEvent
unfolding filter
join_rows [] memories = []
join_rows ((rank, row) ∷ rows) memories =
    filter (λ (m : MemoryEvent). m.id == row.id) memories ++ join_rows rows memories

-- `ORDER BY rank`
unfoldable pub by_rank : List (F64 × FtsRow) → List (F64 × FtsRow)
unfolding sort_by lt
by_rank rows = sort_by (λ (a b : F64 × FtsRow). lt a.0 b.0) rows

-- `limit.saturating_mul(128).clamp(256, 2048)` of a `usize`
unfoldable pub candidate_limit : ℕ → ℕ
candidate_limit limit =
    let scaled = if ltb (limit * 128) (2 ^ 64) then limit * 128 else 2 ^ 64 - 1 in
    if ltb scaled 256 then 256 else if ltb 2048 scaled then 2048 else scaled

-- one reading of the clock: whether a deadline is given and has come
unfoldable pub ensure_recall_deadline : Bool → Result (Unit {0})
ensure_recall_deadline expired =
    if expired then err (validation "recall deadline exceeded") else ok tt

-- `Some(Vec::new())`
unfoldable pub asks_for_none : Option (List String) → Bool
asks_for_none none = false
asks_for_none (some values) = is_empty values

-- `with_recall_timeout`, from the replies of the connection and whether the time ran out
unfoldable pub with_recall_timeout :
    {A : Type 0} → Result ℕ → Result (Unit {0}) → Bool → Result (Unit {0}) → Result A → Result A
with_recall_timeout busy_timeout lowered timed_out restored result = do
  _ ← busy_timeout
  _ ← lowered
  ensure (not timed_out) (validation "recall deadline exceeded")
  _ ← restored
  result

module _ (env : Externals) where
  unfoldable pub format_fts_query : String → String → Option String
  unfolding terms filler_terms contains filter join
  format_fts_query query operator =
      let quoted =
        map (λ (term : String). append "\"" (append (double_quotes term) "\""))
          (filter (λ (term : String). not (contains filler_terms term)) (terms env query)) in
      if is_empty quoted then none else some (join operator quoted)

  module _ (engine : SearchEngine) where
    -- `search_text_limited`, from its query
    unfoldable pub search_matches :
        Bool → Option ℕ → Store → Option String → Result (List MemoryEvent)
    unfolding join_rows by_rank limited
    search_matches include_superseded limit s none = ok []
    search_matches include_superseded limit s (some fts_query) = do
      found ← engine.match_fts fts_query s.fts
      collect_rows env (
          limited limit
            (filter (is_current include_superseded) (join_rows (by_rank found) s.memories)))

    unfoldable pub search_text_limited :
        String → Bool → Option ℕ → Store → Result (List MemoryEvent)
    unfolding format_fts_query search_matches
    search_text_limited query include_superseded limit s =
        if is_blank query
        then list_all env include_superseded s
        else search_matches include_superseded limit s (format_fts_query query " AND ")

    unfoldable pub search_fts_filtered_limited :
        String → RecallOptions → Option ℕ → Store → Result (List MemoryEvent)
    unfolding join_rows by_rank limited passes
    search_fts_filtered_limited fts_query o limit s = do
      found ← engine.match_fts fts_query s.fts
      collect_rows env (limited limit (filter (passes o) (join_rows (by_rank found) s.memories)))

    unfoldable pub search_found :
        RecallOptions → Option ℕ → Store → Option String → Result (List MemoryEvent)
    unfolding search_fts_filtered_limited
    search_found o limit s none = ok []
    search_found o limit s (some fts_query) = search_fts_filtered_limited fts_query o limit s

    -- `search_text_filtered_with_context_limited`
    unfoldable pub search_text_filtered :
        String → RecallOptions → Option ℕ → Store → Result (List MemoryEvent)
    unfolding format_fts_query search_found asks_for_none
    search_text_filtered query o limit s =
        if is_blank query
        then ok []
        else if asks_for_none o.rings || asks_for_none o.event_types
        then ok []
        else search_found o limit s (format_fts_query query " AND ")
