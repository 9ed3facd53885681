-- ===== src/Audit.antt =====
-- crates/tree-ring-memory-core/src/audit.rs: the checks of an audit that look at each memory and
-- at the links between memories. The check for contradictory guidance is not modelled.
pub mod Links
pub mod Privacy
use tree_ring_memory.Prelude.{
  ℕ, ◌*◌, ◌^◌, String, Bool, not, ◌&&◌, ◌||◌, Option, none, some, List, [], ◌∷◌, ◌++◌, ◌==◌, leb,
  if◌then◌else◌, is_some, is_none, option_eq, contains,
}
use tree_ring_memory.Event.{MemoryEvent}
use tree_ring_memory.Event.Score.{F64, nonneg, half, lt}
use tree_ring_memory.Externals.{Externals}

pub data AuditType : Type 0 where
  -- `AuditType::All`
  every : AuditType
  stale sensitive low_confidence supersession contradictions : AuditType

pub data AuditSeverity : Type 0 where
  critical high medium low : AuditSeverity

pub record AuditFinding : Type 0 where
  pub audit_type : AuditType
  pub severity : AuditSeverity
  pub memory_id : Option String
  pub related_memory_id : Option String
  pub finding : String
  pub recommended_action : String
  pub tags : List String

-- `finding`, whose memory id is always present here
unfoldable pub finding_of :
    AuditType
    → AuditSeverity
    → String
    → Option String
    → String
    → String
    → List String
    → AuditFinding
finding_of audit_type severity memory_id related text recommended tags = record {
  audit_type = audit_type;
  severity = severity;
  memory_id = some memory_id;
  related_memory_id = related;
  finding = text;
  recommended_action = recommended;
  tags = tags;
}

-- `if test { findings.push(found) }`
abbrev pub push_if : Bool → AuditFinding → List AuditFinding
push_if test found = if test then found ∷ [] else []

-- `matches!(event.retention.as_str(), "durable" | "user_pinned")`
unfoldable pub lasting : MemoryEvent → Bool
lasting e = e.retention == "durable" || e.retention == "user_pinned"

-- 0.75
unfoldable pub three_quarters : F64
three_quarters = nonneg (3 * 2 ^ 1072)

unfoldable pub sensitive_findings : MemoryEvent → List AuditFinding
unfolding lasting finding_of
sensitive_findings e =
    if e.sensitivity == "normal"
    then []
    else push_if (e.sensitivity == "secret") (
        finding_of sensitive critical e.id none "Secret-like memory is retained."
          "Redact or delete this memory." ("privacy" ∷ "secret" ∷ []))
      ++ (push_if (lasting e) (
            finding_of sensitive high e.id none "Sensitive memory has durable retention."
              "Review whether this memory should be redacted or assigned an expiry."
              ("privacy" ∷ "retention" ∷ []))
          ++ push_if (is_none e.expires_at) (
              finding_of sensitive medium e.id none
                "Sensitive memory is retained without an expiry."
                "Set expires_at, redact, or delete this memory." ("privacy" ∷ "expiry" ∷ [])))

unfoldable pub audit_sensitive : List MemoryEvent → List AuditFinding
unfolding sensitive_findings
audit_sensitive [] = []
audit_sensitive (e ∷ es) = sensitive_findings e ++ audit_sensitive es

unfoldable pub confidence_findings : MemoryEvent → List AuditFinding
unfolding lasting finding_of lt three_quarters
confidence_findings e =
    push_if (e.ring == "heartwood" && lt e.confidence three_quarters) (
      finding_of low_confidence high e.id none "Heartwood memory has low confidence."
        "Review evidence before treating this as durable truth." ("confidence" ∷ "heartwood" ∷ []))
    ++ push_if (lasting e && lt e.confidence half) (
        finding_of low_confidence medium e.id none "Durable memory has very low confidence."
          "Review, demote, or supersede this memory." ("confidence" ∷ "retention" ∷ []))

unfoldable pub audit_low_confidence : List MemoryEvent → List AuditFinding
unfolding confidence_findings
audit_low_confidence [] = []
audit_low_confidence (e ∷ es) = confidence_findings e ++ audit_low_confidence es

-- `by_id.get(id)`: of several memories with an id, the map keeps the last
unfoldable pub by_id : String → List MemoryEvent → Option MemoryEvent
by_id id [] = none
by_id id (e ∷ es) =
    let rest = by_id id es in if is_some rest then rest else if e.id == id then some e else none

-- one turn of the loop over the ids that an event supersedes
unfoldable pub old_findings : MemoryEvent → String → Option MemoryEvent → List AuditFinding
unfolding finding_of
old_findings e old_id none =
    finding_of supersession medium e.id (some old_id) "Memory supersedes a missing memory."
      "Import, restore, or remove the missing supersedes reference."
      ("supersession" ∷ "integrity" ∷ [])
    ∷ []
old_findings e old_id (some old) = push_if (not (option_eq old.superseded_by (some e.id))) (
    finding_of supersession medium e.id (some old_id)
      "Supersedes link is missing a reciprocal superseded_by pointer."
      "Repair the supersession chain." ("supersession" ∷ "integrity" ∷ []))

unfoldable pub supersedes_findings :
    List MemoryEvent → MemoryEvent → List String → List AuditFinding
unfolding old_findings
supersedes_findings events e [] = []
supersedes_findings events e (old_id ∷ ids) =
    old_findings e old_id (by_id old_id events) ++ supersedes_findings events e ids

-- the check of the pointer to the superseding memory
unfoldable pub target_findings : List MemoryEvent → MemoryEvent → Option String → List AuditFinding
unfolding finding_of
target_findings events e none = []
target_findings events e (some new_id) = push_if (not (is_some (by_id new_id events))) (
    finding_of supersession high e.id (some new_id)
      "Memory points to a missing superseded_by target."
      "Import, restore, or clear the missing supersession target."
      ("supersession" ∷ "integrity" ∷ []))

unfoldable pub link_findings : List MemoryEvent → MemoryEvent → List AuditFinding
unfolding target_findings supersedes_findings finding_of
link_findings events e =
    push_if (contains e.supersedes e.id) (
      finding_of supersession high e.id none "Memory supersedes itself."
        "Remove the self-supersession link." ("supersession" ∷ "integrity" ∷ []))
    ++ (target_findings events e e.superseded_by ++ supersedes_findings events e e.supersedes)

-- the loop of `audit_supersession`
unfoldable pub links_findings : List MemoryEvent → List MemoryEvent → List AuditFinding
unfolding link_findings
links_findings events [] = []
links_findings events (e ∷ es) = link_findings events e ++ links_findings events es

unfoldable pub audit_supersession : List MemoryEvent → List AuditFinding
unfolding links_findings
audit_supersession events = links_findings events events

module _ (env : Externals) (now : ℕ) where
  -- an event whose `expires_at` is the text that was parsed
  unfoldable pub expiry_findings : MemoryEvent → Option ℕ → List AuditFinding
  unfolding finding_of
  expiry_findings e none =
      finding_of stale medium e.id none "Memory has an invalid expires_at timestamp."
        "Review the memory and set a valid ISO-8601 expires_at value or redact it."
        ("retention" ∷ "expiry" ∷ [])
      ∷ []
  expiry_findings e (some expires_at) = push_if (leb expires_at now) (
      finding_of stale medium e.id none "Memory expires_at is in the past."
        "Review, delete, redact, or refresh this memory." ("retention" ∷ "expiry" ∷ []))

  unfoldable pub stale_findings : MemoryEvent → Option String → List AuditFinding
  unfolding expiry_findings
  stale_findings e none = []
  stale_findings e (some expires_at) = expiry_findings e (env.parse_rfc3339 expires_at)

  unfoldable pub audit_stale : List MemoryEvent → List AuditFinding
  unfolding stale_findings
  audit_stale [] = []
  audit_stale (e ∷ es) = stale_findings e e.expires_at ++ audit_stale es
