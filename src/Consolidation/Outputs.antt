-- ===== src/Consolidation/Outputs.antt =====
-- What the outputs of a plan are, and that they do not depend on the ids and times that are made.
use tree_ring_memory.Prelude.{
  ℕ, suc, String, ◌≡◌, refl, sym, ap, ◌∙◌, subst, List, [], ◌∷◌, length, All, ◌==◌, ok, >>=-eq-ok,
  >>-eq-ok, ok-injective,
}
use tree_ring_memory.Event.{MemoryEvent, fresh_event}
use tree_ring_memory.Event.Validate.{validate, validate_partition, validated, new_event}
use tree_ring_memory.Externals.{Externals}
use tree_ring_memory.Consolidation.{ConsolidationPeriod, GroupKey}
use tree_ring_memory.Consolidation.Plan.{
  ConsolidationOutput, event_ids, group_summary, output_memory, build_output, build_outputs,
}

-- `new_event` gives the event that it validated.
pub new_event-eq-ok :
    (id now summary event_type : String) {e : MemoryEvent}
    → new_event id now summary event_type ≡ ok e
    → e ≡ fresh_event id now summary event_type
unfolding new_event validated
new_event-eq-ok id now summary event_type h =
    let (checked, rest) = >>-eq-ok (validate (fresh_event id now summary event_type)) _ h in
    sym (ok-injective rest)

-- The memory of an output, and the ids of its sources.
pub record IsBuilt (env : Externals) (made : String × String) (key : GroupKey)
    (events : List MemoryEvent) (period_type : ConsolidationPeriod) (period_key : String)
    (o : ConsolidationOutput) : Type 0 where
  pub memory :
      o.memory
      ≡ output_memory env
          (fresh_event made.0 made.1
            (group_summary key (key.sensitivity_bucket == "sensitive") (length events))
            "summary")
          key
          events
          period_type
          period_key
  pub sources : o.source_memory_ids ≡ event_ids events
  pub valid : validate o.memory ≡ ok tt

module _ (env : Externals) where
  pub build_output-eq-ok :
      (made : String × String) (key : GroupKey) (events : List MemoryEvent)
      (period_type : ConsolidationPeriod) (period_key : String) {o : ConsolidationOutput}
      → build_output env made key events period_type period_key ≡ ok o
      → IsBuilt env made key events period_type period_key o
  unfolding build_output
  build_output-eq-ok made key events period_type period_key {o} h =
      let (e, fresh, rest) = >>=-eq-ok (new_event made.0 made.1 _ "summary") _ h in
      let (checked, end) =
        >>-eq-ok (validate (output_memory env e key events period_type period_key)) _ rest in
      let same = new_event-eq-ok made.0 made.1 _ "summary" fresh in
      let memory : output_memory env e key events period_type period_key ≡ o.memory =
        ap (λ (x : ConsolidationOutput). x.memory) (ok-injective end) in
      record {
        memory =
            sym memory
            ∙ ap (λ (x : MemoryEvent). output_memory env x key events period_type period_key) same;
        sources = sym (ap (λ (x : ConsolidationOutput). x.source_memory_ids) (ok-injective end));
        valid = subst (λ (x : MemoryEvent). validate x ≡ ok tt) memory checked;
      }

  -- The memory of an output is marked as a summary of a consolidation.
  abbrev pub IsSummary : ConsolidationOutput → Type 0
  IsSummary o = (o.memory.event_type ≡ "summary") × (o.memory.source.source_type ≡ "consolidation")

  module _ (made : ℕ → String × String) (period_type : ConsolidationPeriod)
      (period_key : String) where
    built-IsSummary :
        (n : ℕ) (o : ConsolidationOutput) (key : GroupKey) (events : List MemoryEvent)
        → IsBuilt env (made n) key events period_type period_key o
        → IsSummary o × ((m : ℕ) × (o.memory.id ≡ (made m).0))
    unfolding output_memory fresh_event
    built-IsSummary n o key events b = (
      (
        ap (λ (x : MemoryEvent). x.event_type) b.memory,
        ap (λ (x : MemoryEvent). x.source.source_type) b.memory,
      ),
      (n, ap (λ (x : MemoryEvent). x.id) b.memory),
    )

    pub outputs-IsSummary :
        (n : ℕ) (groups : List (GroupKey × List MemoryEvent)) {outputs : List ConsolidationOutput}
        → build_outputs env made n groups period_type period_key ≡ ok outputs
        → All
            (λ (o : ConsolidationOutput). IsSummary o × ((m : ℕ) × (o.memory.id ≡ (made m).0)))
            outputs
    unfolding build_outputs
    outputs-IsSummary n [] h = subst (All _) (ok-injective h) tt
    outputs-IsSummary n ((key, events) ∷ groups) {outputs} h =
        let (o, built, rest) =
          >>=-eq-ok (build_output env (made n) key events period_type period_key) _ h in
        let (os, more, end) =
          >>=-eq-ok (build_outputs env made (suc n) groups period_type period_key) _ rest in
        let b = build_output-eq-ok (made n) key events period_type period_key built in
        subst
          (All (λ (o : ConsolidationOutput). IsSummary o × ((m : ℕ) × (o.memory.id ≡ (made m).0))))
          (ok-injective end)
          (built-IsSummary _ _ key events b, outputs-IsSummary (suc n) groups more)

  fresh_valid :
      (id now id' now' summary event_type : String)
      → validate (fresh_event id now summary event_type)
        ≡ validate (fresh_event id' now' summary event_type)
  unfolding validate validate_partition fresh_event
  fresh_valid id now id' now' summary event_type = refl

  output_valid :
      (id now id' now' summary event_type : String) (key : GroupKey) (events : List MemoryEvent)
      (period_type : ConsolidationPeriod) (period_key : String)
      → validate (
          output_memory env
            (fresh_event id now summary event_type)
            key
            events
            period_type
            period_key)
        ≡ validate (
            output_memory env
              (fresh_event id' now' summary event_type)
              key
              events
              period_type
              period_key)
  unfolding validate validate_partition fresh_event output_memory
  output_valid id now id' now' summary event_type key events period_type period_key = refl

  -- Whether an output can be built does not depend on the id and the time that are made.
  build_output-made :
      (made other : String × String) (key : GroupKey) (events : List MemoryEvent)
      (period_type : ConsolidationPeriod) (period_key : String) {o : ConsolidationOutput}
      → build_output env made key events period_type period_key ≡ ok o
      → (o' : ConsolidationOutput) × (build_output env other key events period_type period_key
          ≡ ok o')
  unfolding build_output new_event validated
  build_output-made made other key events period_type period_key h =
      let text = group_summary key (key.sensitivity_bucket == "sensitive") (length events) in
      let (e, fresh, rest) = >>=-eq-ok (new_event made.0 made.1 text "summary") _ h in
      let (passed, more) = >>-eq-ok (validate (fresh_event made.0 made.1 text "summary")) _ fresh in
      let b = build_output-eq-ok made key events period_type period_key h in
      (
        record {
          memory =
              output_memory env (fresh_event other.0 other.1 text "summary") key events period_type
                period_key;
          source_memory_ids = event_ids events;
        },
        rw (fresh_valid other.0 other.1 made.0 made.1 text "summary" ∙ passed) (
            rw
              (output_valid other.0 other.1 made.0 made.1 text "summary" key events period_type
                  period_key
                ∙ ap validate (sym b.memory)
                ∙ b.valid)
              refl),
      )

  pub build_outputs-made :
      (made other : ℕ → String × String) (period_type : ConsolidationPeriod) (period_key : String)
      (n : ℕ) (groups : List (GroupKey × List MemoryEvent)) {outputs : List ConsolidationOutput}
      → build_outputs env made n groups period_type period_key ≡ ok outputs
      → (outputs' : List ConsolidationOutput) × (build_outputs env other n groups period_type
            period_key
          ≡ ok outputs')
  unfolding build_outputs
  build_outputs-made made other period_type period_key n [] h = ([], refl)
  build_outputs-made made other period_type period_key n ((key, events) ∷ groups) h =
      let (o, built, rest) =
        >>=-eq-ok (build_output env (made n) key events period_type period_key) _ h in
      let (os, more, end) =
        >>=-eq-ok (build_outputs env made (suc n) groups period_type period_key) _ rest in
      let (o', built') =
        build_output-made (made n) (other n) key events period_type period_key built in
      let (os', more') = build_outputs-made made other period_type period_key (suc n) groups more in
      (o' ∷ os', rw (built', more') refl)
