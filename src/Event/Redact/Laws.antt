-- ===== src/Event/Redact/Laws.antt =====
-- Redaction keeps an event acceptable.
use tree_ring_memory.Prelude.{
  String, ◌≡◌, refl, ap, inl, inr, true, false, if◌then◌else◌, Bool-cases, contains, is_blank, ok,
}
use tree_ring_memory.Event.{MemoryEvent}
use tree_ring_memory.Event.Redact.{is_private_scope, redact}
use tree_ring_memory.Event.Validate.{validate, scopes}
use tree_ring_memory.Event.Validate.Laws.{validate_iff}

redacted-scope :
    (e : MemoryEvent)
    → contains scopes e.scope ≡ true
    → contains scopes (if is_private_scope e.scope then "manual" else e.scope) ≡ true
redacted-scope e h = elim (Bool-cases (is_private_scope e.scope)) [
  | inl p ↦ rw p (unfold contains in refl)
  | inr p ↦ rw p h
]

-- The scope of a redacted event is none of the private ones.
not_private :
    (s t : String)
    → is_private_scope t ≡ true
    → (if is_private_scope s then "manual" else s) ≡ t
    → ⊥
not_private s t pt h = elim (Bool-cases (is_private_scope s)) [
  | inl p ↦ cc (manual_public, pt, ap is_private_scope (rw p at h))
  | inr p ↦ cc (p, pt, ap is_private_scope (rw p at h))
]
  where
    manual_public : is_private_scope "manual" ≡ false
    manual_public = unfold is_private_scope in refl

-- A redacted event passes `validate` whenever the original did, so redaction cannot be refused
-- for the form of the event.
pub validate-redact :
    (now : String) (e : MemoryEvent) → validate e ≡ ok tt → validate (redact now e) ≡ ok tt
unfolding redact is_blank contains is_private_scope
validate-redact now e h =
    let v = (validate_iff e).0 h in
    (validate_iff (redact now e)).1 (record {
      summary = refl;
      event_type = refl;
      scope = redacted-scope e v.scope;
      project = tt;
      agent_profile = tt;
      workflow_id = tt;
      session_id = tt;
      operation_id = tt;
      agent_partition = λ p. absurd (not_private e.scope "agent" refl p);
      workflow_partition = λ p. absurd (not_private e.scope "workflow" refl p);
      session_partition = λ p. absurd (not_private e.scope "session" refl p);
      ring = v.ring;
      sensitivity = refl;
      retention = v.retention;
      salience = v.salience;
      confidence = v.confidence;
    })
