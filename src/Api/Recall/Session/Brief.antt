-- ===== src/Api/Recall/Session/Brief.antt =====
-- What the brief of a session may show, and that the query of its rows lets nothing else through.
use tree_ring_memory.Prelude.{
  String, ◌≡◌, refl, true, false, Bool, not, ◌&&◌, ◌||◌, ◌⊎◌, inl, inr, Option, none, some, List,
  ◌==◌, eq_iff, contains, is_none, option_eq, option_eq_iff, arith, &&-eq-true,
}
use tree_ring_memory.Event.{MemoryEvent}
use tree_ring_memory.Event.Score.{F64, lt}
use tree_ring_memory.Api.Search.{SearchEngine}
use tree_ring_memory.Api.Recall.Session.{
  SessionRecallScope, shared_scopes, in_project, in_partition, is_later, is_live, is_shown,
}

-- The project of the session, or its alias.
abbrev IsOfProject : SessionRecallScope → MemoryEvent → Type 0
IsOfProject scope m =
    (m.project ≡ some scope.project)
    ⊎ ((alias : String) × (scope.project_alias ≡ some alias) × (m.project ≡ some alias))

-- A shared memory, or one of the agent, of the workflow or of the session itself.
abbrev IsOfPartition : SessionRecallScope → MemoryEvent → Type 0
IsOfPartition scope m =
    (contains shared_scopes m.scope ≡ true)
    ⊎ ((m.scope ≡ "agent") × (m.agent_profile ≡ some scope.agent_profile))
    ⊎ ((m.scope ≡ "workflow") × (m.workflow_id ≡ some scope.workflow_id))
    ⊎ ((m.scope ≡ "session") × (m.session_id ≡ some scope.session_id))

-- What a session may be told of.
pub record IsBrief (engine : SearchEngine) (today : F64) (scope : SessionRecallScope)
    (tombstones : List String) (m : MemoryEvent) : Type 0 where
  pub project : IsOfProject scope m
  pub normal : m.sensitivity ≡ "normal"
  pub current : m.superseded_by ≡ none
  pub live :
      (m.expires_at ≡ none)
      ⊎ ((text : String) × (day : F64) × (m.expires_at ≡ some text)
          × (engine.julianday text ≡ some day)
          × (lt today day ≡ true))
  pub not_redacted : contains tombstones m.id ≡ false
  pub partition : IsOfPartition scope m

or_cases : (a b : Bool) → (a || b) ≡ true → (a ≡ true) ⊎ (b ≡ true)
or_cases true b h = inl refl
or_cases false b h = inr h

both :
    (scope wanted : String) (value : Option String) (own : String)
    → (scope == wanted && option_eq value (some own)) ≡ true
    → (scope ≡ wanted) × (value ≡ some own)
both scope wanted value own h =
    let (here, same) = &&-eq-true _ _ h in
    ((eq_iff scope wanted).0 here, (option_eq_iff value (some own)).0 same)

partition-IsOfPartition :
    (scope : SessionRecallScope) (m : MemoryEvent)
    → in_partition scope m ≡ true
    → IsOfPartition scope m
unfolding in_partition
partition-IsOfPartition scope m h = elim (or_cases _ _ h) [
  | inl shared ↦ inl shared
  | inr own ↦ elim (or_cases _ _ own) [
    | inl agent ↦ inr (inl (both m.scope "agent" m.agent_profile scope.agent_profile agent))
    | inr other ↦ elim (or_cases _ _ other) [
      | inl workflow ↦
          inr (inr (inl (both m.scope "workflow" m.workflow_id scope.workflow_id workflow)))
      | inr session ↦ inr (inr (inr (both m.scope "session" m.session_id scope.session_id session)))
    ]
  ]
]

project-IsOfProject :
    (scope : SessionRecallScope) (m : MemoryEvent) (project : Option String)
    → m.project ≡ project
    → in_project scope project ≡ true
    → IsOfProject scope m
unfolding in_project
project-IsOfProject scope m none e h = absurd (cc h)
project-IsOfProject scope m (some p) e h = elim (or_cases _ _ h) [
  | inl own ↦ inl (rw ((eq_iff p scope.project).0 own) at e)
  | inr other ↦ alias scope.project_alias refl other
]
  where
    alias :
        (a : Option String)
        → scope.project_alias ≡ a
        → (p == elim a [ none ↦ scope.project | some alias ↦ alias ]) ≡ true
        → IsOfProject scope m
    alias none f k = inl (rw ((eq_iff p scope.project).0 k) at e)
    alias (some a) f k = inr (a, f, (rw ((eq_iff p a).0 k) at e))

module _ (engine : SearchEngine) (today : F64) (scope : SessionRecallScope)
    (tombstones : List String) where
  live_cases :
      (m : MemoryEvent) (o : Option String)
      → m.expires_at ≡ o
      → is_live engine today o ≡ true
      → (m.expires_at ≡ none)
        ⊎ ((text : String) × (day : F64) × (m.expires_at ≡ some text)
            × (engine.julianday text ≡ some day)
            × (lt today day ≡ true))
  unfolding is_live is_later
  live_cases m none e h = inl e
  live_cases m (some text) e h = inr (later (engine.julianday text) refl h)
    where
      later :
          (o : Option F64)
          → engine.julianday text ≡ o
          → is_later engine today o ≡ true
          → (text' : String) × (day : F64) × (m.expires_at ≡ some text')
            × (engine.julianday text' ≡ some day)
            × (lt today day ≡ true)
      later none f k = absurd (cc k)
      later (some day) f k = (text, day, e, f, k)

  pub shown-IsBrief :
      (m : MemoryEvent)
      → is_shown engine today scope tombstones m ≡ true
      → IsBrief engine today scope tombstones m
  unfolding is_shown
  shown-IsBrief m h =
      let (project, h1) = &&-eq-true _ _ h in
      let (normal, h2) = &&-eq-true _ _ h1 in
      let (current, h3) = &&-eq-true _ _ h2 in
      let (live, h4) = &&-eq-true _ _ h3 in
      let (not_redacted, partition) =
        &&-eq-true (not (contains tombstones m.id)) (in_partition scope m) h4 in
      record {
        project = project-IsOfProject scope m m.project refl project;
        normal = (eq_iff m.sensitivity "normal").0 normal;
        current = no_text m.superseded_by current;
        live = live_cases m m.expires_at refl live;
        not_redacted = ground (arith, not_redacted);
        partition = partition-IsOfPartition scope m partition;
      }
    where
      no_text : (o : Option String) → is_none o ≡ true → o ≡ none
      no_text none k = refl
      no_text (some x) k = cc k
