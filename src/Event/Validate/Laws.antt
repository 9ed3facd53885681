-- ===== src/Event/Validate/Laws.antt =====
-- What `validate` accepts, field by field.
use tree_ring_memory.Prelude.{
  ◌≤◌, String, ◌≡◌, refl, ◌↔◌, true, false, Option, none, some, List, arith, eq_iff, is_some,
  contains, is_blank, has_control, chars_count, >>-eq-ok, ensure-eq-ok, >>-ok, ensure-ok, ok,
  not-eq-true, not-true,
}
use tree_ring_memory.Event.{MemoryEvent}
use tree_ring_memory.Event.Score.{F64, in_unit}
use tree_ring_memory.Event.Validate.{
  rings, scopes, sensitivities, retentions, max_context_metadata_length, validate_member,
  validate_optional_context_metadata, validate_score, validate_partition, validate,
}

-- A context label that may be absent, and is else a short line of text.
pub record IsLabel (value : String) : Type 0 where
  pub visible : is_blank value ≡ false
  pub printable : has_control value ≡ false
  pub short : chars_count value ≤ max_context_metadata_length

abbrev pub IsOptionalLabel : Option String → Type 0
IsOptionalLabel none = Unit
IsOptionalLabel (some value) = IsLabel value

pub record IsValid (e : MemoryEvent) : Type 0 where
  pub summary : is_blank e.summary ≡ false
  pub event_type : is_blank e.event_type ≡ false
  pub scope : contains scopes e.scope ≡ true
  pub project : IsOptionalLabel e.project
  pub agent_profile : IsOptionalLabel e.agent_profile
  pub workflow_id : IsOptionalLabel e.workflow_id
  pub session_id : IsOptionalLabel e.session_id
  pub operation_id : IsOptionalLabel e.operation_id
  pub agent_partition : e.scope ≡ "agent" → is_some e.agent_profile ≡ true
  pub workflow_partition : e.scope ≡ "workflow" → is_some e.workflow_id ≡ true
  pub session_partition : e.scope ≡ "session" → is_some e.session_id ≡ true
  pub ring : contains rings e.ring ≡ true
  pub sensitivity : contains sensitivities e.sensitivity ≡ true
  pub retention : contains retentions e.retention ≡ true
  pub salience : in_unit e.salience ≡ true
  pub confidence : in_unit e.confidence ≡ true

member_iff :
    (field value : String) (allowed : List String)
    → (validate_member field value allowed ≡ ok tt) ↔ (contains allowed value ≡ true)
unfolding validate_member
member_iff field value allowed = (λ h. ground arith, λ h. ground arith)

score_iff : (field : String) (v : F64) → (validate_score field v ≡ ok tt) ↔ (in_unit v ≡ true)
unfolding validate_score
score_iff field v = (λ h. ground arith, λ h. ground arith)

metadata_label :
    (field : String) (o : Option String)
    → validate_optional_context_metadata field o ≡ ok tt
    → IsOptionalLabel o
unfolding validate_optional_context_metadata
metadata_label field none h = tt
metadata_label field (some v) h = record {
  visible = ground arith;
  printable = ground arith;
  short = ground arith;
}

label_metadata :
    (field : String) (o : Option String)
    → IsOptionalLabel o
    → validate_optional_context_metadata field o ≡ ok tt
unfolding validate_optional_context_metadata
label_metadata field none h = refl
label_metadata field (some v) h = ground (arith, h.visible, h.printable, h.short)

record Partitions (e : MemoryEvent) : Type 0 where
  agent : e.scope ≡ "agent" → is_some e.agent_profile ≡ true
  workflow : e.scope ≡ "workflow" → is_some e.workflow_id ≡ true
  session : e.scope ≡ "session" → is_some e.session_id ≡ true

partition_sound : (e : MemoryEvent) → validate_partition e ≡ ok tt → Partitions e
unfolding validate_partition
partition_sound e h = record {
  agent = λ p. ground (arith, eq_iff e.scope "agent");
  workflow = λ p. ground (arith, eq_iff e.scope "workflow");
  session = λ p. ground (arith, eq_iff e.scope "session");
}

partition_complete : (e : MemoryEvent) → Partitions e → validate_partition e ≡ ok tt
unfolding validate_partition
partition_complete e p = ground (
  arith,
  eq_iff e.scope "agent",
  eq_iff e.scope "workflow",
  eq_iff e.scope "session",
  p.agent,
  p.workflow,
  p.session,
)

validate-IsValid : (e : MemoryEvent) → validate e ≡ ok tt → IsValid e
unfolding validate
validate-IsValid e h =
    let a1 = >>-eq-ok _ _ h in
    let a2 = >>-eq-ok _ _ a1.1 in
    let a3 = >>-eq-ok _ _ a2.1 in
    let a4 = >>-eq-ok _ _ a3.1 in
    let a5 = >>-eq-ok _ _ a4.1 in
    let a6 = >>-eq-ok _ _ a5.1 in
    let a7 = >>-eq-ok _ _ a6.1 in
    let a8 = >>-eq-ok _ _ a7.1 in
    let a9 = >>-eq-ok _ _ a8.1 in
    let a10 = >>-eq-ok _ _ a9.1 in
    let a11 = >>-eq-ok _ _ a10.1 in
    let a12 = >>-eq-ok _ _ a11.1 in
    let a13 = >>-eq-ok _ _ a12.1 in
    let p = partition_sound e a9.0 in
    record {
      summary = not-eq-true _ (ensure-eq-ok _ _ a1.0);
      event_type = not-eq-true _ (ensure-eq-ok _ _ a2.0);
      scope = (member_iff "scope" e.scope scopes).0 a3.0;
      project = metadata_label "project" e.project a4.0;
      agent_profile = metadata_label "agent_profile" e.agent_profile a5.0;
      workflow_id = metadata_label "workflow_id" e.workflow_id a6.0;
      session_id = metadata_label "session_id" e.session_id a7.0;
      operation_id = metadata_label "operation_id" e.operation_id a8.0;
      agent_partition = p.agent;
      workflow_partition = p.workflow;
      session_partition = p.session;
      ring = (member_iff "ring" e.ring rings).0 a10.0;
      sensitivity = (member_iff "sensitivity" e.sensitivity sensitivities).0 a11.0;
      retention = (member_iff "retention" e.retention retentions).0 a12.0;
      salience = (score_iff "salience" e.salience).0 a13.0;
      confidence = (score_iff "confidence" e.confidence).0 a13.1;
    }

IsValid-validate : (e : MemoryEvent) → IsValid e → validate e ≡ ok tt
unfolding validate
IsValid-validate e v = >>-ok _ _ (ensure-ok _ _ (not-true _ v.summary)) (
    >>-ok _ _ (ensure-ok _ _ (not-true _ v.event_type)) (
      >>-ok _ _ ((member_iff "scope" e.scope scopes).1 v.scope) (
        >>-ok _ _ (label_metadata "project" e.project v.project) (
          >>-ok _ _ (label_metadata "agent_profile" e.agent_profile v.agent_profile) (
            >>-ok _ _ (label_metadata "workflow_id" e.workflow_id v.workflow_id) (
              >>-ok _ _ (label_metadata "session_id" e.session_id v.session_id) (
                >>-ok _ _ (label_metadata "operation_id" e.operation_id v.operation_id) (
                  >>-ok _ _ (partition_complete e parts) (
                    >>-ok _ _ ((member_iff "ring" e.ring rings).1 v.ring) (
                      >>-ok _ _
                        ((member_iff "sensitivity" e.sensitivity sensitivities).1 v.sensitivity)
                        (>>-ok _ _ ((member_iff "retention" e.retention retentions).1 v.retention) (
                          >>-ok _ _ ((score_iff "salience" e.salience).1 v.salience)
                            ((score_iff "confidence" e.confidence).1 v.confidence)))))))))))))
  where
    parts : Partitions e
    parts = record {
      agent = v.agent_partition;
      workflow = v.workflow_partition;
      session = v.session_partition;
    }

-- `validate` accepts an event exactly when every field is as `IsValid` says: the summary and the
-- event type are not blank, the scope, ring, sensitivity and retention are among the allowed
-- ones, each context label that is present is not blank, has no control character and at most 256
-- characters, a private scope has the identity of its partition, and both scores are from 0 to 1.
pub validate_iff : (e : MemoryEvent) → (validate e ≡ ok tt) ↔ IsValid e
validate_iff e = (validate-IsValid e, IsValid-validate e)
