-- ===== src/Event/Redact.antt =====
-- `MemoryEvent::redact` (models.rs). The time that `now_iso` reads is an argument.
pub mod Laws
use tree_ring_memory.Prelude.{String, Bool, ◌||◌, none, [], ◌==◌, if◌then◌else◌}
use tree_ring_memory.Event.{MemoryEvent, default_source, default_review}

-- `matches!(self.scope.as_str(), "agent" | "workflow" | "session")`
unfoldable pub is_private_scope : String → Bool
is_private_scope scope = scope == "agent" || scope == "workflow" || scope == "session"

unfoldable pub redact : String → MemoryEvent → MemoryEvent
redact now e = record e {
  summary = "[REDACTED]";
  details = "";
  project = none;
  agent_profile = none;
  workflow_id = none;
  session_id = none;
  operation_id = none;
  scope = if is_private_scope e.scope then "manual" else e.scope;
  event_type = "redacted";
  tags = [];
  source = default_source;
  supersedes = [];
  superseded_by = none;
  links = [];
  review = default_review;
  sensitivity = "private";
  updated_at = now;
}
