-- ===== src/Legacy/Laws.antt =====
-- What the normalisation leaves alone, and what it makes acceptable.
use tree_ring_memory.Prelude.{
  String, ◌≡◌, inl, inr, true, false, Option, none, some, ◌==◌, eq_iff, Bool-cases, is_some, ok,
}
use tree_ring_memory.Event.{MemoryEvent}
use tree_ring_memory.Externals.{Externals}
use tree_ring_memory.Event.Validate.{validate}
use tree_ring_memory.Event.Validate.Laws.{validate_iff, IsValid, IsOptionalLabel}
use tree_ring_memory.Legacy.{normalize_identity, is_missing, missing_identity}

module _ (env : Externals) where
  present : (o : Option String) → IsOptionalLabel o → is_some o ≡ true → is_missing o ≡ false
  unfolding is_missing
  present none l h = cc
  present (some v) l h = l.visible

  IsValid-missing_identity : (e : MemoryEvent) → IsValid e → missing_identity e ≡ false
  unfolding missing_identity
  IsValid-missing_identity e v = elim (Bool-cases (e.scope == "agent")) [
    | inl a ↦
        rw a (
          present e.agent_profile v.agent_profile
            (v.agent_partition ((eq_iff e.scope "agent").0 a)))
    | inr a ↦ rw a (elim (Bool-cases (e.scope == "workflow")) [
      | inl b ↦ rw b (
          present e.workflow_id v.workflow_id
            (v.workflow_partition ((eq_iff e.scope "workflow").0 b)))
      | inr b ↦ rw b (elim (Bool-cases (e.scope == "session")) [
        | inl c ↦ rw c (
            present e.session_id v.session_id
              (v.session_partition ((eq_iff e.scope "session").0 c)))
        | inr c ↦ rw c
      ])
    ])
  ]

  -- An event that the current checks accept is left exactly as it is.
  pub normalize_identity_valid :
      (e : MemoryEvent) → validate e ≡ ok tt → normalize_identity env e ≡ ok (e, false)
  unfolding normalize_identity
  normalize_identity_valid e h = rw (IsValid-missing_identity e ((validate_iff e).0 h))
