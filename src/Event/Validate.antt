-- ===== src/Event/Validate.antt =====
-- `MemoryEvent::validate` and `MemoryEvent::new` (models.rs), with the allowed values.
pub mod Laws
use tree_ring_memory.Prelude.{
  ℕ, String, not, ◌&&◌, Option, none, some, List, [], ◌∷◌, ◌==◌, leb, if◌then◌else◌, is_none,
  contains, is_blank, has_control, chars_count, ◌>>=◌, ◌>>◌, ensure, Result, validation, ok, err,
}
use Prim.Native.String.{◌++◌ as append}
use tree_ring_memory.Event.{MemoryEvent, fresh_event}
use tree_ring_memory.Event.Score.{F64, in_unit}

abbrev pub rings : List String
rings = "cambium" ∷ "outer" ∷ "inner" ∷ "heartwood" ∷ "scar" ∷ "seed" ∷ []

abbrev pub scopes : List String
scopes =
    "global" ∷ "project" ∷ "agent" ∷ "session" ∷ "workflow" ∷ "tool" ∷ "eval" ∷ "manual" ∷ "dox"
    ∷ "revolve" ∷ []

abbrev pub sensitivities : List String
sensitivities =
    "normal" ∷ "private" ∷ "secret" ∷ "health" ∷ "financial" ∷ "legal" ∷ "personal_identifier" ∷ []

abbrev pub retentions : List String
retentions = "ephemeral" ∷ "normal" ∷ "durable" ∷ "user_pinned" ∷ "forget_after_date" ∷ []

abbrev pub max_context_metadata_length : ℕ
max_context_metadata_length = 256

unfoldable pub validate_member : String → String → List String → Result (Unit {0})
validate_member field value allowed =
    ensure (contains allowed value) (validation (append "invalid " field))

unfoldable pub validate_optional_context_metadata : String → Option String → Result (Unit {0})
validate_optional_context_metadata field none = ok tt
validate_optional_context_metadata field (some value) = do
  ensure (not (is_blank value)) (validation (append field " must not be blank"))
  ensure (not (has_control value))
      (validation (append field " must not contain control characters"))
  ensure (leb (chars_count value) max_context_metadata_length)
      (validation (append field " must be at most 256 characters"))

unfoldable pub validate_score : String → F64 → Result (Unit {0})
validate_score field value =
    ensure (in_unit value) (validation (append field " must be a finite number between 0 and 1"))

-- The `match` on the scope: a private scope wants the identity of its partition.
unfoldable pub validate_partition : MemoryEvent → Result (Unit {0})
validate_partition e =
    if e.scope == "agent" && is_none e.agent_profile
    then err (validation "scope agent requires agent_profile")
    else if e.scope == "workflow" && is_none e.workflow_id
    then err (validation "scope workflow requires workflow_id")
    else if e.scope == "session" && is_none e.session_id
    then err (validation "scope session requires session_id")
    else ok tt

unfoldable pub validate : MemoryEvent → Result (Unit {0})
validate e = do
  ensure (not (is_blank e.summary)) (validation "summary is required")
  ensure (not (is_blank e.event_type)) (validation "event_type is required")
  validate_member "scope" e.scope scopes
  validate_optional_context_metadata "project" e.project
  validate_optional_context_metadata "agent_profile" e.agent_profile
  validate_optional_context_metadata "workflow_id" e.workflow_id
  validate_optional_context_metadata "session_id" e.session_id
  validate_optional_context_metadata "operation_id" e.operation_id
  validate_partition e
  validate_member "ring" e.ring rings
  validate_member "sensitivity" e.sensitivity sensitivities
  validate_member "retention" e.retention retentions
  validate_score "salience" e.salience
  validate_score "confidence" e.confidence

-- `event.validated()`
unfoldable pub validated : MemoryEvent → Result MemoryEvent
validated e = do validate e; ok e

-- `MemoryEvent::new`
unfoldable pub new_event : String → String → String → String → Result MemoryEvent
new_event id now summary event_type = validated (fresh_event id now summary event_type)
