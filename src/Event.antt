-- ===== src/Event.antt =====
-- crates/tree-ring-memory-core/src/models.rs: the memory event and its parts. The checks are in
-- Event/Validate.antt, redaction in Event/Redact.antt.
pub mod Score
pub mod Validate
pub mod Redact
use tree_ring_memory.Prelude.{String, Bool, false, Option, none, List, []}
use Score.{F64, half}

pub record MemorySource : Type 0 where
  pub source_type : String
  pub ref_ : String
  pub quote : String

pub record MemoryLink : Type 0 where
  pub link_type : String
  pub target : String

pub record MemoryReview : Type 0 where
  pub needs_review : Bool
  pub review_reason : Option String
  pub reviewed_at : Option String
  pub reviewed_by : Option String

pub record MemoryEvent : Type 0 where
  pub id : String
  pub created_at : String
  pub updated_at : String
  pub project : Option String
  pub agent_profile : Option String
  pub workflow_id : Option String
  pub session_id : Option String
  pub operation_id : Option String
  pub scope : String
  pub ring : String
  pub event_type : String
  pub summary : String
  pub details : String
  pub source : MemorySource
  pub tags : List String
  pub salience : F64
  pub confidence : F64
  pub sensitivity : String
  pub retention : String
  pub expires_at : Option String
  pub supersedes : List String
  pub superseded_by : Option String
  pub links : List MemoryLink
  pub review : MemoryReview

-- `MemorySource::default()`
abbrev pub default_source : MemorySource
default_source = record { source_type = "manual"; ref_ = ""; quote = "" }

-- `MemoryReview::default()`
abbrev pub default_review : MemoryReview
default_review = record {
  needs_review = false;
  review_reason = none;
  reviewed_at = none;
  reviewed_by = none;
}

-- The event that `MemoryEvent::new` builds before it validates it, with the id and the time that
-- the clock and the random generator give.
unfoldable pub fresh_event : String → String → String → String → MemoryEvent
fresh_event id now summary event_type = record {
  id = id;
  created_at = now;
  updated_at = now;
  project = none;
  agent_profile = none;
  workflow_id = none;
  session_id = none;
  operation_id = none;
  scope = "global";
  ring = "cambium";
  event_type = event_type;
  summary = summary;
  details = "";
  source = default_source;
  tags = [];
  salience = half;
  confidence = half;
  sensitivity = "normal";
  retention = "normal";
  expires_at = none;
  supersedes = [];
  superseded_by = none;
  links = [];
  review = default_review;
}
