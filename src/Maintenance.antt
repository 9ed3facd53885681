-- ===== src/Maintenance.antt =====
-- crates/tree-ring-memory-core/src/maintenance.rs: the plan of a maintenance run. The planner
-- changes nothing; `maintain` in Api/Maintain.antt applies a plan.
pub mod Plan
pub mod Masking
use tree_ring_memory.Prelude.{
  ℕ, String, Bool, true, false, ◌&&◌, ◌||◌, Option, none, some, List, [], ◌∷◌, ◌++◌, ◌==◌, ltb,
  if◌then◌else◌, is_none, option_eq, length, filter, is_empty, Result, ok, err,
}
use tree_ring_memory.Event.{MemoryEvent}
use tree_ring_memory.Externals.{Externals}
use tree_ring_memory.Sensitivity.{lenient_guard, detect_memory_event_sensitivity}

pub record MaintenanceRequest : Type 0 where
  pub dry_run : Bool
  pub apply_expired : Bool
  pub apply_secret_redactions : Bool
  pub repair_fts : Bool
  pub include_superseded : Bool
  pub project : Option String

-- `MaintenanceRequest::default()`
abbrev pub default_request : MaintenanceRequest
default_request = record {
  dry_run = true;
  apply_expired = false;
  apply_secret_redactions = false;
  repair_fts = false;
  include_superseded = false;
  project = none;
}

pub data MaintenanceActionType : Type 0 where
  delete_expired redact_secret : MaintenanceActionType
  review_expired_protected review_invalid_expiry : MaintenanceActionType

pub data MaintenanceSeverity : Type 0 where
  critical high medium low : MaintenanceSeverity

pub record MaintenanceAction : Type 0 where
  pub action_type : MaintenanceActionType
  pub memory_id : String
  pub severity : MaintenanceSeverity
  pub reason : String
  pub applied : Bool

pub record MaintenanceFtsReport : Type 0 where
  pub memory_rows : ℕ
  pub fts_rows : ℕ
  pub missing_fts_rows : ℕ
  pub orphan_fts_rows : ℕ
  pub repaired : Bool

-- `MaintenanceFtsReport::default()`
abbrev pub no_fts_report : MaintenanceFtsReport
no_fts_report = record {
  memory_rows = 0;
  fts_rows = 0;
  missing_fts_rows = 0;
  orphan_fts_rows = 0;
  repaired = false;
}

pub record MaintenanceReport : Type 0 where
  pub id : String
  pub generated_at : String
  pub memory_count : ℕ
  pub planned_action_count : ℕ
  pub applied_action_count : ℕ
  pub dry_run : Bool
  pub status : String
  pub actions : List MaintenanceAction
  pub fts : MaintenanceFtsReport

unfoldable pub protected_memory : MemoryEvent → Bool
protected_memory e =
    e.ring == "scar"
    || e.ring == "heartwood"
    || (e.retention == "durable" || e.retention == "user_pinned")

-- `matches!(event.retention.as_str(), "ephemeral" | "forget_after_date")`
unfoldable pub temporary_retention : MemoryEvent → Bool
temporary_retention e = e.retention == "ephemeral" || e.retention == "forget_after_date"

unfoldable pub action :
    MaintenanceActionType → MemoryEvent → MaintenanceSeverity → String → MaintenanceAction
action action_type e severity reason = record {
  action_type = action_type;
  memory_id = e.id;
  severity = severity;
  reason = reason;
  applied = false;
}

-- The two filters on the events of a plan.
unfoldable pub is_candidate : MaintenanceRequest → MemoryEvent → Bool
is_candidate request e =
    (is_none request.project || option_eq e.project request.project)
    && (request.include_superseded || is_none e.superseded_by)

module _ (env : Externals) where
  -- the instant of `expires_at`, and what there is to do at `now`
  unfoldable pub plan_instant : MemoryEvent → ℕ → Option ℕ → List MaintenanceAction
  unfolding action
  plan_instant e now none =
      action review_invalid_expiry e medium
        "Memory has an invalid expires_at timestamp and requires review."
      ∷ []
  plan_instant e now (some expires_at) =
      if ltb now expires_at
      then []
      else if protected_memory e
      then action review_expired_protected e high
          "Expired protected memory requires manual review before mutation."
        ∷ []
      else if temporary_retention e
      then action delete_expired e medium
          "Expired memory with temporary retention is eligible for deletion."
        ∷ []
      else []

  -- the actions that `plan_expiry` pushes
  unfoldable pub plan_expiry_text : MemoryEvent → ℕ → Option String → List MaintenanceAction
  plan_expiry_text e now none = []
  plan_expiry_text e now (some expires_at) = plan_instant e now (env.parse_rfc3339 expires_at)

  unfoldable pub plan_expiry : MemoryEvent → ℕ → List MaintenanceAction
  plan_expiry e now = plan_expiry_text e now e.expires_at

  -- `.unwrap_or_else(|_| "secret".to_string())`
  unfoldable pub or_secret : Result String → String
  or_secret (ok detected) = detected
  or_secret (err _) = "secret"

  -- the actions that `plan_secret_redaction` pushes
  unfoldable pub plan_secret_redaction : MemoryEvent → List MaintenanceAction
  unfolding or_secret action
  plan_secret_redaction e =
      if e.sensitivity == "secret"
        || or_secret (detect_memory_event_sensitivity env lenient_guard e) == "secret"
      then action redact_secret e critical
          "Secret-like memory content was detected and should be redacted."
        ∷ []
      else []

  -- the loop over the candidates
  unfoldable pub plan_actions : ℕ → List MemoryEvent → List MaintenanceAction
  plan_actions now [] = []
  plan_actions now (e ∷ es) = plan_expiry e now ++ (plan_secret_redaction e ++ plan_actions now es)

  -- `plan_maintenance_at`, with the id and the text of `now` that are made for the report
  unfoldable pub plan_maintenance_at :
      List MemoryEvent → MaintenanceRequest → ℕ → String → String → MaintenanceReport
  plan_maintenance_at events request now id generated_at =
      let candidates = filter (is_candidate request) events in
      let actions = plan_actions now candidates in
      record {
        id = id;
        generated_at = generated_at;
        memory_count = length candidates;
        planned_action_count = length actions;
        applied_action_count = 0;
        dry_run = request.dry_run;
        status = if is_empty actions then "clean" else "planned";
        actions = actions;
        fts = no_fts_report;
      }
