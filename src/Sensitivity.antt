-- ===== src/Sensitivity.antt =====
-- crates/tree-ring-memory-core/src/sensitivity.rs: the guard that classifies text, blocks what
-- looks like a secret, and walks over every text of an event.
pub mod Inspect
pub mod Detect
use tree_ring_memory.Prelude.{
  String, Bool, true, false, not, ◌&&◌, Option, none, some, List, [], ◌∷◌, ◌++◌, ◌==◌,
  if◌then◌else◌, ◌>>=◌, ◌>>◌, Result, sensitive_memory_blocked, ok, err,
}
use tree_ring_memory.Event.{MemoryEvent, MemoryLink}
use tree_ring_memory.Externals.{Pattern, Externals}

pub record SensitivityResult : Type 0 where
  pub sensitivity : String
  pub redacted_text : String
  pub findings : List String
  pub requires_explicit_approval : Bool

pub record SensitivityGuard : Type 0 where
  pub block_secret_storage : Bool

-- `SensitivityGuard::default()`
abbrev pub default_guard : SensitivityGuard
default_guard = record { block_secret_storage = true }

-- `SensitivityGuard::new(false)`
abbrev pub lenient_guard : SensitivityGuard
lenient_guard = record { block_secret_storage = false }

-- The first column of both tables.
abbrev pub pattern_name : Pattern → String
pattern_name Pattern.openai_key = "openai_key"
pattern_name Pattern.tree_ring_coordinator_capability = "tree_ring_coordinator_capability"
pattern_name Pattern.github_token = "github_token"
pattern_name Pattern.github_fine_grained_token = "github_fine_grained_token"
pattern_name Pattern.aws_access_key = "aws_access_key"
pattern_name Pattern.bearer_token = "bearer_token"
pattern_name Pattern.private_key = "private_key"
pattern_name Pattern.secret_assignment = "secret_assignment"
pattern_name Pattern.health = "health"
pattern_name Pattern.financial = "financial"
pattern_name Pattern.legal = "legal"
pattern_name Pattern.personal_identifier = "personal_identifier"

abbrev pub secret_patterns : List Pattern
secret_patterns =
    Pattern.openai_key ∷ Pattern.tree_ring_coordinator_capability ∷ Pattern.github_token
    ∷ Pattern.github_fine_grained_token ∷ Pattern.aws_access_key ∷ Pattern.bearer_token
    ∷ Pattern.private_key ∷ Pattern.secret_assignment ∷ []

abbrev pub category_patterns : List Pattern
category_patterns =
    Pattern.health ∷ Pattern.financial ∷ Pattern.legal ∷ Pattern.personal_identifier ∷ []

-- The result of the second loop of `inspect`.
unfoldable pub classify_category : String → Option Pattern → SensitivityResult
classify_category text (some category) = record {
  sensitivity = pattern_name category;
  redacted_text = text;
  findings = pattern_name category ∷ [];
  requires_explicit_approval = true;
}
classify_category text none = record {
  sensitivity = "normal";
  redacted_text = text;
  findings = [];
  requires_explicit_approval = false;
}

module _ (env : Externals) where
  -- The first loop of `inspect`: the text with the matches replaced, and the findings.
  unfoldable pub scan_secrets : List Pattern → String → List String → String × List String
  scan_secrets [] redacted findings = (redacted, findings)
  scan_secrets (p ∷ ps) redacted findings =
      let hit = env.is_match p redacted in
      scan_secrets ps (if hit then env.replace_all p redacted "[REDACTED_SECRET]" else redacted)
        (if hit then findings ++ pattern_name p ∷ [] else findings)

  -- The second loop of `inspect`.
  unfoldable pub find_category : List Pattern → String → Option Pattern
  find_category [] text = none
  find_category (p ∷ ps) text =
      let rest = find_category ps text in if env.is_match p text then some p else rest

  -- What `inspect` returns after the first loop.
  unfoldable pub classify : String → String → List String → SensitivityResult
  unfolding classify_category
  classify text redacted [] = classify_category text (find_category category_patterns text)
  classify text redacted (f ∷ fs) = record {
    sensitivity = "secret";
    redacted_text = redacted;
    findings = f ∷ fs;
    requires_explicit_approval = false;
  }

  unfoldable pub inspect : String → SensitivityResult
  inspect text =
      let (redacted, findings) = scan_secrets secret_patterns text [] in
      classify text redacted findings

  module _ (guard : SensitivityGuard) where
    unfoldable pub check_or_raise : String → Result SensitivityResult
    check_or_raise text =
        let result = inspect text in
        if result.sensitivity == "secret" && guard.block_secret_storage
        then err sensitive_memory_blocked
        else ok result

    -- `accumulate`, with the text that `detected` points at passed on
    unfoldable pub accumulate : String → String → Result String
    accumulate detected value = do
      result ← check_or_raise value
      ok (
          if detected == "normal" && not (result.sensitivity == "normal")
          then result.sensitivity
          else detected)

    unfoldable pub accumulate_optional : String → Option String → Result String
    accumulate_optional detected none = ok detected
    accumulate_optional detected (some value) = accumulate detected value

    -- the loops over tags and superseded ids, and that of `detect_text_sensitivity`
    unfoldable pub accumulate_all : String → List String → Result String
    accumulate_all detected [] = ok detected
    accumulate_all detected (value ∷ values) = do
      detected' ← accumulate detected value
      accumulate_all detected' values

    -- the loop over links
    unfoldable pub accumulate_links : String → List MemoryLink → Result String
    accumulate_links detected [] = ok detected
    accumulate_links detected (link ∷ links) = do
      d ← accumulate detected link.link_type
      d' ← accumulate d link.target
      accumulate_links d' links

    unfoldable pub detect_text_sensitivity : List String → Result String
    detect_text_sensitivity values = accumulate_all "normal" values

    unfoldable pub detect_memory_event_sensitivity : MemoryEvent → Result String
    detect_memory_event_sensitivity event = do
      d ← accumulate "normal" event.id
      d ← accumulate d event.created_at
      d ← accumulate d event.updated_at
      d ← accumulate_optional d event.project
      d ← accumulate_optional d event.agent_profile
      d ← accumulate_optional d event.workflow_id
      d ← accumulate_optional d event.session_id
      d ← accumulate_optional d event.operation_id
      d ← accumulate d event.scope
      d ← accumulate d event.ring
      d ← accumulate d event.event_type
      d ← accumulate d event.summary
      d ← accumulate d event.details
      d ← accumulate d event.source.source_type
      d ← accumulate d event.source.ref_
      d ← accumulate d event.source.quote
      d ← accumulate_all d event.tags
      d ← accumulate d event.sensitivity
      d ← accumulate d event.retention
      d ← accumulate_optional d event.expires_at
      d ← accumulate_all d event.supersedes
      d ← accumulate_optional d event.superseded_by
      d ← accumulate_links d event.links
      d ← accumulate_optional d event.review.review_reason
      d ← accumulate_optional d event.review.reviewed_at
      accumulate_optional d event.review.reviewed_by
