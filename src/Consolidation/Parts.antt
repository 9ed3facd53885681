-- ===== src/Consolidation/Parts.antt =====
-- A summary and the memories of its group.
use tree_ring_memory.Prelude.{
  String, ◌≡◌, refl, sym, ap, ◌∙◌, true, false, Bool, Bool-cases, Option, none, List, [], ◌∷◌, map,
  ◌==◌, eq_iff, ◌⊎◌, inl, inr, if◌then◌else◌, All, All-map, All-both, all, option_eq, option_eq_iff,
}
use tree_ring_memory.Event.{MemoryEvent}
use tree_ring_memory.Externals.{Externals}
use tree_ring_memory.Consolidation.{ConsolidationPeriod, GroupKey, effective_sensitivity, group_key}
use tree_ring_memory.Consolidation.Plan.{uniform_optional, output_memory}

-- The summary does not mix the memory with those of another project, scope, agent, workflow or
-- session, and is private and for review if the memory is sensitive.
pub record IsPart (env : Externals) (summary e : MemoryEvent) : Type 0 where
  pub project : e.project ≡ summary.project
  pub scope : e.scope ≡ summary.scope
  pub agent : (e.scope == "agent" ≡ false) ⊎ (summary.agent_profile ≡ e.agent_profile)
  pub workflow : (e.scope == "workflow" ≡ false) ⊎ (summary.workflow_id ≡ e.workflow_id)
  pub session : (e.scope == "session" ≡ false) ⊎ (summary.session_id ≡ e.session_id)
  pub sensitivity :
      (effective_sensitivity env e ≡ "normal")
      ⊎ ((summary.sensitivity ≡ "private") × (summary.review.needs_review ≡ true))

-- Texts that are all the same are uniform.
uniform-same :
    (v : Option String) (values : List (Option String))
    → All (λ (x : Option String). x ≡ v) values
    → (values ≡ []) ⊎ (uniform_optional values ≡ v)
unfolding uniform_optional all
uniform-same v [] h = inl refl
uniform-same v (x ∷ xs) h = inr (rw (same xs h.1) h.0)
  where
    same :
        (ys : List (Option String))
        → All (λ (y : Option String). y ≡ v) ys
        → all (λ (y : Option String). option_eq y x) ys ≡ true
    same [] g = refl
    same (y ∷ ys) g = rw ((option_eq_iff y x).1 (g.0 ∙ sym h.0)) (same ys g.1)

module _ (env : Externals) (key : GroupKey) where
  abbrev HasKey : MemoryEvent → Type 0
  HasKey e = group_key env e ≡ key

  -- A field that the key has for one scope: in that scope the summary has it as its memories do.
  partitioned :
      (f : MemoryEvent → Option String) (wanted : String) (part : GroupKey → Option String)
      (events : List MemoryEvent)
      → ((x : MemoryEvent)
          → part (group_key env x) ≡ (if (group_key env x).scope == wanted then f x else none))
      → All HasKey events
      → All
          (λ (e : MemoryEvent).
            ((group_key env e).scope == wanted ≡ false) ⊎ (uniform_optional (map f events) ≡ f e))
          events
  partitioned f wanted part [] split h = tt
  partitioned f wanted part (x ∷ xs) split h = elim (Bool-cases (key.scope == wanted)) [
    | inr other ↦
        All-map (x ∷ xs) (λ e k. inl (ap (λ (g : GroupKey). g.scope == wanted) k ∙ other)) h
    | inl here ↦ uniform here (uniform-same (part key) (map f (x ∷ xs)) (values here (x ∷ xs) h))
  ]
    where
      own : key.scope == wanted ≡ true → (e : MemoryEvent) → HasKey e → f e ≡ part key
      own here e k = sym (
          ap part (sym k)
          ∙ split e
          ∙ ap (λ (b : Bool). if b then f e else none)
              (ap (λ (g : GroupKey). g.scope == wanted) k ∙ here))

      values :
          key.scope == wanted ≡ true
          → (es : List MemoryEvent) → All HasKey es
          → All (λ (v : Option String). v ≡ part key) (map f es)
      values here [] g = tt
      values here (e ∷ es) g = (own here e g.0, values here es g.1)

      uniform :
          key.scope == wanted ≡ true
          → (map f (x ∷ xs) ≡ []) ⊎ (uniform_optional (map f (x ∷ xs)) ≡ part key)
          → All
              (λ (e : MemoryEvent).
                ((group_key env e).scope == wanted ≡ false)
                ⊎ (uniform_optional (map f (x ∷ xs)) ≡ f e))
              (x ∷ xs)
      uniform here (inl empty) = absurd (cc empty)
      uniform here (inr same) = All-map (x ∷ xs) (λ e k. inr (same ∙ sym (own here e k))) h

  bucket :
      (e : MemoryEvent)
      → HasKey e
      → (effective_sensitivity env e ≡ "normal") ⊎ (key.sensitivity_bucket ≡ "sensitive")
  unfolding group_key
  bucket e k = elim (Bool-cases (effective_sensitivity env e == "normal")) [
    | inl p ↦ inl ((eq_iff _ "normal").0 p)
    | inr p ↦ inr (
        sym (ap (λ (g : GroupKey). g.sensitivity_bucket) k)
        ∙ ap (λ (b : Bool). if b then "normal" else "sensitive") p)
  ]

  pub summary-IsPart :
      (fresh : MemoryEvent) (events : List MemoryEvent) (period_type : ConsolidationPeriod)
      (period_key : String)
      → All HasKey events
      → All (IsPart env (output_memory env fresh key events period_type period_key)) events
  unfolding output_memory group_key
  summary-IsPart fresh events period_type period_key h =
      All-map events
        (λ e k. record {
          project = ap (λ (g : GroupKey). g.project) k.0.0.0;
          scope = ap (λ (g : GroupKey). g.scope) k.0.0.0;
          agent = k.0.0.1;
          workflow = k.0.1;
          session = k.1;
          sensitivity = marked (bucket e k.0.0.0);
        })
        (All-both _ _ events
          (All-both _ _ events
            (All-both _ _ events h (
              partitioned (λ e. e.agent_profile) "agent" (λ g. g.agent_partition) events (λ x. refl)
                h))
            (partitioned (λ e. e.workflow_id) "workflow" (λ g. g.workflow_partition) events
              (λ x. refl) h))
          (partitioned (λ e. e.session_id) "session" (λ g. g.session_partition) events (λ x. refl)
            h))
    where
      summary : MemoryEvent
      summary = output_memory env fresh key events period_type period_key

      marked :
          {A : Type 0}
          → A ⊎ (key.sensitivity_bucket ≡ "sensitive")
          → A ⊎ ((summary.sensitivity ≡ "private") × (summary.review.needs_review ≡ true))
      marked (inl a) = inl a
      marked (inr s) = inr (rw s (refl, refl))
