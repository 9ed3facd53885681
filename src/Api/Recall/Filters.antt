-- ===== src/Api/Recall/Filters.antt =====
-- What the filters of a recall let through.
use tree_ring_memory.Prelude.{
  ℕ, ◌^◌, String, ◌≡◌, refl, true, false, Bool, not, ◌||◌, ◌⊎◌, inl, inr, Option, none, some, List,
  [], ◌∷◌, ◌==◌, eq_iff, ltb, Bool-cases, All, All-map, All-append, All-kept, All-take, filter,
  contains, is_none, option_eq_iff, arith, &&-eq-true,
}
use tree_ring_memory.Event.{MemoryEvent}
use tree_ring_memory.Event.Score.{F64}
use tree_ring_memory.Store.{FtsRow}
use tree_ring_memory.Consolidation.{differs}
use tree_ring_memory.Api.Maintain.{is_current}
use tree_ring_memory.Api.Search.{RecallOptions, misses, misses_text, passes, limited, join_rows}

-- The value of a column satisfies a filter on it, of one value or of several.
abbrev IsWanted : Option String → Option String → Type 0
IsWanted none value = Unit
IsWanted (some wanted) value = value ≡ some wanted

abbrev IsOneOf : Option (List String) → String → Type 0
IsOneOf none value = Unit
IsOneOf (some values) value = contains values value ≡ true

abbrev IsText : Option String → String → Type 0
IsText none value = Unit
IsText (some wanted) value = value ≡ wanted

-- The memory satisfies every filter of the options.
pub record IsVisible (o : RecallOptions) (m : MemoryEvent) : Type 0 where
  pub current : (o.include_superseded ≡ true) ⊎ (m.superseded_by ≡ none)
  pub project : IsWanted o.project m.project
  pub agent_profile : IsWanted o.agent_profile m.agent_profile
  pub workflow_id : IsWanted o.workflow_id m.workflow_id
  pub session_id : IsWanted o.session_id m.session_id
  pub scope : IsText o.scope m.scope
  pub ring : IsOneOf o.rings m.ring
  pub event_type : IsOneOf o.event_types m.event_type
  pub normal : (o.include_sensitive ≡ true) ⊎ (m.sensitivity ≡ "normal")

wanted : (o v : Option String) → not (differs o v) ≡ true → IsWanted o v
unfolding differs
wanted none v h = tt
wanted (some w) v h = (option_eq_iff v (some w)).0 (ground arith)

one_of : (o : Option (List String)) (v : String) → not (misses o v) ≡ true → IsOneOf o v
unfolding misses
one_of none v h = tt
one_of (some vs) v h = ground arith

scope_passes : (o : Option String) (v : String) → not (misses_text o v) ≡ true → IsText o v
unfolding misses_text
scope_passes none v h = tt
scope_passes (some w) v h = (eq_iff v w).0 (ground arith)

or_none : (b : Bool) (o : Option String) → (b || is_none o) ≡ true → (b ≡ true) ⊎ (o ≡ none)
or_none true o h = inl refl
or_none false none h = inr refl
or_none false (some x) h = cc

or_normal : (b : Bool) (t : String) → (b || t == "normal") ≡ true → (b ≡ true) ⊎ (t ≡ "normal")
or_normal true t h = inl refl
or_normal false t h = inr ((eq_iff t "normal").0 h)

pub passes-IsVisible : (o : RecallOptions) (m : MemoryEvent) → passes o m ≡ true → IsVisible o m
unfolding passes is_current
passes-IsVisible o m h =
    let (current, h1) = &&-eq-true _ _ h in
    let (project, h2) = &&-eq-true _ _ h1 in
    let (agent_profile, h3) = &&-eq-true _ _ h2 in
    let (workflow_id, h4) = &&-eq-true _ _ h3 in
    let (session_id, h5) = &&-eq-true _ _ h4 in
    let (scope, h6) = &&-eq-true _ _ h5 in
    let (ring, h7) = &&-eq-true _ _ h6 in
    let (event_type, normal) = &&-eq-true _ _ h7 in
    record {
      current = or_none o.include_superseded m.superseded_by current;
      project = wanted o.project m.project project;
      agent_profile = wanted o.agent_profile m.agent_profile agent_profile;
      workflow_id = wanted o.workflow_id m.workflow_id workflow_id;
      session_id = wanted o.session_id m.session_id session_id;
      scope = scope_passes o.scope m.scope scope;
      ring = one_of o.rings m.ring ring;
      event_type = one_of o.event_types m.event_type event_type;
      normal = or_normal o.include_sensitive m.sensitivity normal;
    }

module _ (P : MemoryEvent → Type 0) where
  pub All-join :
      (rows : List (F64 × FtsRow)) (ms : List MemoryEvent) → All P ms → All P (join_rows rows ms)
  unfolding join_rows
  All-join [] ms h = tt
  All-join ((rank, row) ∷ rows) ms h =
      All-append P (filter (λ (m : MemoryEvent). m.id == row.id) ms) _
        (All-map (filter (λ (m : MemoryEvent). m.id == row.id) ms) (λ m k. k.0) (All-kept P _ ms h))
        (All-join rows ms h)

  pub All-limited : (limit : Option ℕ) (ms : List MemoryEvent) → All P ms → All P (limited limit ms)
  unfolding limited
  All-limited none ms h = h
  All-limited (some limit) ms h = elim (Bool-cases (ltb limit (2 ^ 63))) [
    | inl p ↦ rw p (All-take P limit ms h)
    | inr p ↦ rw p h
  ]
