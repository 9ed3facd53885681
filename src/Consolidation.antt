-- ===== src/Consolidation.antt =====
-- crates/tree-ring-memory-core/src/consolidation.rs: the periods, the request, and which memories
-- a consolidation groups together. Its outputs are in Consolidation/Plan.antt.
pub mod Plan
pub mod Outputs
pub mod Planned
pub mod Groups
pub mod Parts
pub mod Sources
pub mod Replacement
pub mod Best
use tree_ring_memory.Prelude.{
  ℕ, ◌*◌, ◌^◌, String, Bool, false, not, ◌&&◌, ◌||◌, Option, none, some, List, [], ◌∷◌, ◌++◌, ◌==◌,
  ltb, if◌then◌else◌, is_some, option_eq, trim, to_ascii_lowercase, remove_chars, Result, ok, err,
  validation,
}
use Prim.Native.Nat.{Ordering}
use Prim.Native.String.{then as and_then, compare, ◌++◌ as append}
use tree_ring_memory.Prelude.Decimal.{decimal}
use tree_ring_memory.Prelude.Maps.{entry_set}
use tree_ring_memory.Event.{MemoryEvent}
use tree_ring_memory.Event.Score.{F64, nonneg, le}
use tree_ring_memory.Externals.{Externals, IsoWeek}
use tree_ring_memory.Sensitivity.{lenient_guard, detect_memory_event_sensitivity}
use tree_ring_memory.Maintenance.{or_secret}

pub data ConsolidationPeriod : Type 0 where
  daily weekly monthly yearly manual : ConsolidationPeriod

-- `ConsolidationPeriod::as_str`, which `Display` and serde print too
abbrev pub period_text : ConsolidationPeriod → String
period_text daily = "daily"
period_text weekly = "weekly"
period_text monthly = "monthly"
period_text yearly = "yearly"
period_text manual = "manual"

-- `ConsolidationPeriod::parse`
unfoldable pub parse_period : String → Result ConsolidationPeriod
parse_period value =
    let normalized = to_ascii_lowercase (trim value) in
    if normalized == "daily"
    then ok daily
    else if normalized == "weekly"
    then ok weekly
    else if normalized == "monthly"
    then ok monthly
    else if normalized == "yearly"
    then ok yearly
    else if normalized == "manual"
    then ok manual
    else err (validation (append "unsupported period_type: " normalized))

unfoldable pub default_output_ring : ConsolidationPeriod → String
default_output_ring daily = "outer"
default_output_ring manual = "outer"
default_output_ring weekly = "inner"
default_output_ring monthly = "inner"
default_output_ring yearly = "inner"

pub record ConsolidationRequest : Type 0 where
  pub period_type : ConsolidationPeriod
  pub period_key : Option String
  pub project : Option String
  pub agent_profile : Option String
  pub workflow_id : Option String
  pub session_id : Option String
  pub dry_run : Bool
  pub force : Bool

pub record GroupKey : Type 0 where
  pub project : Option String
  pub scope : String
  pub agent_partition : Option String
  pub workflow_partition : Option String
  pub session_partition : Option String
  pub ring : String
  pub event_type : String
  pub sensitivity_bucket : String

-- the derived order of `Option<String>`
unfoldable pub compare_option : Option String → Option String → Ordering
compare_option none none = Ordering.eq
compare_option none (some b) = Ordering.lt
compare_option (some a) none = Ordering.gt
compare_option (some a) (some b) = compare a b

-- the derived order of `GroupKey`: by the first fields that differ
unfoldable pub compare_key : GroupKey → GroupKey → Ordering
unfolding compare_option
compare_key a b = and_then (compare_option a.project b.project) (
    and_then (compare a.scope b.scope) (
      and_then (compare_option a.agent_partition b.agent_partition) (
        and_then (compare_option a.workflow_partition b.workflow_partition) (
          and_then (compare_option a.session_partition b.session_partition) (
            and_then (compare a.ring b.ring) (
              and_then (compare a.event_type b.event_type)
                (compare a.sensitivity_bucket b.sensitivity_bucket)))))))

-- 0.45
unfoldable pub least_salience : F64
least_salience = nonneg (8106479329266893 * 2 ^ 1020)

-- `format!("{:02}", week)`
unfoldable pub two_digits : ℕ → String
two_digits n = if ltb n 10 then append "0" (decimal n) else decimal n

-- `format!("{}-W{:02}", week.year(), week.week())`
unfoldable pub week_text : IsoWeek → String
unfolding two_digits
week_text w =
    append (if w.before_zero then append "-" (decimal w.year) else decimal w.year)
      (append "-W" (two_digits w.week))

-- `wanted.is_some_and(|wanted| value != Some(wanted))`
unfoldable pub differs : Option String → Option String → Bool
differs none value = false
differs (some wanted) value = not (option_eq value (some wanted))

module _ (env : Externals) where
  unfoldable pub period_key_for_datetime : ConsolidationPeriod → ℕ → String
  unfolding week_text
  period_key_for_datetime daily instant = env.format_utc "%Y-%m-%d" instant
  period_key_for_datetime weekly instant = week_text (env.iso_week instant)
  period_key_for_datetime monthly instant = env.format_utc "%Y-%m" instant
  period_key_for_datetime yearly instant = env.format_utc "%Y" instant
  period_key_for_datetime manual instant =
      append "manual-" (remove_chars b'-' b':' (env.rfc3339_seconds instant))

  -- `event_period_key`, from the instant of `created_at`
  unfoldable pub instant_period_key : ConsolidationPeriod → Option ℕ → Option String
  instant_period_key period_type none = none
  instant_period_key period_type (some instant) = some (period_key_for_datetime period_type instant)

  unfoldable pub event_period_key : MemoryEvent → ConsolidationPeriod → Option String
  unfolding instant_period_key
  event_period_key e period_type = instant_period_key period_type (env.parse_rfc3339 e.created_at)

  unfoldable pub effective_sensitivity : MemoryEvent → String
  effective_sensitivity e =
      let detected = or_secret env (detect_memory_event_sensitivity env lenient_guard e) in
      if detected == "secret" || e.sensitivity == "secret"
      then "secret"
      else if not (e.sensitivity == "normal")
      then e.sensitivity
      else detected

  -- `event_period_key(…) != Some(period_key)` unless the period is manual
  unfoldable pub outside_period : MemoryEvent → ConsolidationPeriod → String → Bool
  unfolding event_period_key
  outside_period e manual period_key = false
  outside_period e period_type period_key =
      not (option_eq (event_period_key e period_type) (some period_key))

  -- `is_candidate`
  unfoldable pub consolidation_candidate : MemoryEvent → ConsolidationRequest → String → Bool
  unfolding differs effective_sensitivity outside_period least_salience le
  consolidation_candidate e request period_key =
      if is_some e.superseded_by
      then false
      else if e.event_type == "summary" && e.source.source_type == "consolidation"
      then false
      else if differs request.project e.project
      then false
      else if differs request.agent_profile e.agent_profile
      then false
      else if differs request.workflow_id e.workflow_id
      then false
      else if differs request.session_id e.session_id
      then false
      else if effective_sensitivity e == "secret"
      then false
      else if outside_period e request.period_type period_key
      then false
      else le least_salience e.salience
        || (e.ring == "heartwood" || (e.ring == "scar" || e.ring == "seed"))
        || (e.retention == "durable" || e.retention == "user_pinned")

  unfoldable pub group_key : MemoryEvent → GroupKey
  unfolding effective_sensitivity
  group_key e = record {
    project = e.project;
    scope = e.scope;
    agent_partition = if e.scope == "agent" then e.agent_profile else none;
    workflow_partition = if e.scope == "workflow" then e.workflow_id else none;
    session_partition = if e.scope == "session" then e.session_id else none;
    ring = e.ring;
    event_type = e.event_type;
    sensitivity_bucket = if effective_sensitivity e == "normal" then "normal" else "sensitive";
  }

  -- `groups.entry(group_key(event)).or_default().push(event)`
  unfoldable pub push_event : MemoryEvent → Option (List MemoryEvent) → List MemoryEvent
  push_event e none = e ∷ []
  push_event e (some es) = es ++ e ∷ []

  unfoldable pub group_events :
      List (GroupKey × List MemoryEvent) → List MemoryEvent → List (GroupKey × List MemoryEvent)
  unfolding entry_set push_event compare_key group_key
  group_events groups [] = groups
  group_events groups (e ∷ es) =
      group_events (entry_set compare_key (group_key e) (push_event e) groups) es
