-- ===== src/Api/Denials.antt =====
-- What the coordinated mode refuses, and what a refused call leaves.
use tree_ring_memory.Prelude.{
  String, ◌≡◌, refl, Bool, false, Option, none, some, List, [], ◌∷◌, ◌++◌, if◌then◌else◌, is_some,
  length, TreeRingError, Result, authorization_denied, ok, err, ◌⊎◌, inl, inr,
}
use tree_ring_memory.Event.{MemoryEvent}
use tree_ring_memory.Externals.{Externals}
use tree_ring_memory.Store.{Store, coordinated, AuditRow, PolicyMode, unrestricted}
use tree_ring_memory.Portability.{normalize_import_events}
use tree_ring_memory.Policy.{
  WriteContext, AuthorizationOutcome, allowed, denied, is_unrestricted, hashes_match, audit_target,
  insert_audit, authorize_with_policy, authorize_coordinator_action,
}
use tree_ring_memory.Api.{
  guarded, supersede_body, supersede, delete_body, delete, redact_body, redact,
}
use tree_ring_memory.Api.Admin.{disabled, disable_coordinated_policy}
use tree_ring_memory.Api.Batch.{
  import_events, plan_import, first_id, import_report, import_body, import_normalized,
}
use tree_ring_memory.Api.Invariant.Guarded.{OnlyAudit}

abbrev pub refusal : TreeRingError
refusal = authorization_denied "coordinator capability required by coordinated store policy"

-- The call is refused: it returns the error, and of the tables only the audit log differs, by one
-- new row that records the denial under the name of the action.
pub record IsRefused {ℓ} {A : Type ℓ} (action : String) (s : Store) (r : Store × Result A)
    : Type ℓ where
  pub refused : r.1 ≡ err refusal
  pub kept : OnlyAudit s r.0
  pub row : AuditRow
  pub logged : r.0.authorization_audit ≡ s.authorization_audit ++ row ∷ []
  pub recorded : (row.action ≡ action) × (row.decision ≡ "denied")

pub not_unrestricted : (mode : PolicyMode) → mode ≡ coordinated → is_unrestricted mode ≡ false
unfolding is_unrestricted
not_unrestricted unrestricted h = cc
not_unrestricted coordinated h = refl

module _ (env : Externals) (now : String) (context : WriteContext) where
  -- The store is coordinated, and the context has no capability that matches.
  abbrev pub IsUnprivileged : Store → Type 0
  IsUnprivileged s =
      (s.policy.mode ≡ coordinated)
      × (hashes_match context.capability_hash s.policy.capability_hash ≡ false)

  -- An authorization that denies.
  pub record IsDenial (action : String) (s : Store) (auth : AuthorizationOutcome × Store)
      : Type 0 where
    pub outcome : auth.0 ≡ denied refusal
    pub kept : OnlyAudit s auth.1
    pub row : AuditRow
    pub logged : auth.1.authorization_audit ≡ s.authorization_audit ++ row ∷ []
    pub recorded : (row.action ≡ action) × (row.decision ≡ "denied")

  pub policy-IsDenial :
      (action : String) (target : Option String) (s : Store)
      → hashes_match context.capability_hash s.policy.capability_hash ≡ false
      → IsDenial action s (authorize_with_policy env now context action target s.policy s)
  unfolding authorize_with_policy insert_audit
  policy-IsDenial action target s h = rw h (record {
    outcome = refl;
    kept = record {
      memories = refl;
      fts = refl;
      claims = refl;
      tombstones = refl;
      policy = refl;
      consolidations = refl;
    };
    row = record {
      created_at = now;
      action = action;
      decision = "denied";
      reason =
          if is_some context.capability_hash
          then "invalid_coordinator_capability"
          else "missing_coordinator_capability";
      actor_profile = context.actor_profile;
      origin = context.origin;
      target_memory_id = audit_target env target;
    };
    logged = refl;
    recorded = (refl, refl);
  })

  pub action-IsDenial :
      (action : String) (target : Option String) (s : Store)
      → IsUnprivileged s
      → IsDenial action s (authorize_coordinator_action env now context action target s)
  unfolding authorize_coordinator_action
  action-IsDenial action target s u =
      rw (not_unrestricted s.policy.mode u.0) (policy-IsDenial action target s u.1)

  pub denial-IsRefused {ℓ} :
      {A : Type ℓ} (action : String) (s : Store) (auth : AuthorizationOutcome × Store)
      (body : Store → Result (Store × A))
      → IsDenial action s auth
      → IsRefused action s (guarded s auth body)
  unfolding guarded
  denial-IsRefused action s (denied error, after) body d = record {
    refused = cc d.outcome;
    kept = d.kept;
    row = d.row;
    logged = d.logged;
    recorded = d.recorded;
  }
  denial-IsRefused action s (allowed, after) body d = absurd (cc d.outcome)

  -- In the coordinated mode, a context without the matching capability cannot delete, redact,
  -- supersede or import anything, nor disable the policy: each of these calls returns
  -- `AuthorizationDenied`, and changes nothing but the audit log, which gains one row that records
  -- the denial. An import that is no dry run is refused in this way unless its events fail
  -- normalisation, which comes first.
  pub unprivileged-IsRefused :
      (s : Store)
      → IsUnprivileged s
      → ((id : String) → IsRefused "delete" s (delete env now context id s))
        × ((id : String) → IsRefused "redact" s (redact env now context id s))
        × ((old_id new_id : String)
            → IsRefused "supersede" s (supersede env now context old_id new_id s))
        × ((events : List MemoryEvent) (replace_existing : Bool)
            → ((e : TreeRingError) × (normalize_import_events env events ≡ err e))
              ⊎ IsRefused "import_jsonl" s
                  (import_events env now context events false replace_existing s))
        × IsRefused "policy_disable" s (disable_coordinated_policy env now context s)
  unfolding delete redact supersede import_events import_normalized disable_coordinated_policy
      disabled
  unprivileged-IsRefused s u = (
    λ id.
        denial-IsRefused "delete" s _ (delete_body env now context id)
          (action-IsDenial "delete" (some id) s u),
    λ id.
        denial-IsRefused "redact" s _ (redact_body env now context id)
          (action-IsDenial "redact" (some id) s u),
    λ old_id new_id.
        denial-IsRefused "supersede" s _ (supersede_body env now context old_id new_id)
          (action-IsDenial "supersede" (some old_id) s u),
    λ events replace. import_refused replace (normalize_import_events env events) _ refl,
    disable_refused _ (action-IsDenial "policy_disable" none s u),
  )
    where
      disable_refused :
          (auth : AuthorizationOutcome × Store)
          → IsDenial "policy_disable" s auth
          → IsRefused "policy_disable" s (disabled env now context auth)
      disable_refused (denied error, after) d = record {
        refused = cc d.outcome;
        kept = d.kept;
        row = d.row;
        logged = d.logged;
        recorded = d.recorded;
      }
      disable_refused (allowed, after) d = absurd (cc d.outcome)

      import_refused :
          (replace : Bool) (read normal : Result (List MemoryEvent))
          → read ≡ normal
          → ((e : TreeRingError) × (read ≡ err e))
            ⊎ IsRefused "import_jsonl" s (import_normalized env now context false replace s normal)
      import_refused replace read (err e) h = inl (e, h)
      import_refused replace read (ok normal) h =
          let plan = plan_import replace s [] normal in
          inr (
            denial-IsRefused "import_jsonl" s _
              (import_body env now context plan (import_report (length normal) false plan))
              (action-IsDenial "import_jsonl" (first_id plan.planned_writes normal) s u))
