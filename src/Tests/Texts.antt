-- ===== src/Tests/Texts.antt =====
-- Runs of the checks on events and texts, and of the planner.
use tree_ring_memory.Prelude.{
  String, ◌≡◌, refl, ◌≢◌, ◌↔◌, ◌⊎◌, true, false, ◌||◌, List, [], ◌∷◌, ◌++◌, ◌==◌, if◌then◌else◌,
  any, All, Any, sensitive_memory_blocked, ok, err, Bool,
}
use tree_ring_memory.Event.{MemoryEvent}
use tree_ring_memory.Event.Redact.{redact}
use tree_ring_memory.Event.Validate.{validate}
use tree_ring_memory.Event.Validate.Laws.{validate_iff, IsValid}
use tree_ring_memory.Event.Redact.Laws.{validate-redact}
use tree_ring_memory.Sensitivity.{inspect, default_guard, detect_memory_event_sensitivity}
use tree_ring_memory.Sensitivity.Inspect.{looks_secret, category, inspect-secret_iff}
use tree_ring_memory.Sensitivity.Detect.{
  holds_secret, optional_text, link_texts, public_texts, first_flag, detect_default,
}
use tree_ring_memory.Portability.{normalize_import_event}
use tree_ring_memory.Legacy.{normalize_identity}
use tree_ring_memory.Portability.Import.{IsRelabelled, import_safe}
use tree_ring_memory.Maintenance.{
  default_request, delete_expired, is_candidate, plan_secret_redaction, plan_maintenance_at,
}
use tree_ring_memory.Maintenance.Plan.{plan_deletes, IsDeletable}
use tree_ring_memory.Maintenance.Masking.{
  masked_secret, NoCategory, plan_secret_complete, redaction,
}
use tree_ring_memory.Store.{Store, fts_row}
use tree_ring_memory.Store.Write.{put_in_transaction}
use tree_ring_memory.Store.Write.Inversion.{put-eq-ok, Written}
use tree_ring_memory.Api.History.{migrated}
use tree_ring_memory.Tests.Data.{note, env}
use tree_ring_memory.Tests.Program.{program}

-- An event with a health text before a secret.
abbrev masked : MemoryEvent
masked = record note { summary = "my diagnosis"; details = "sk-1" }

valid_note : validate note ≡ ok tt
unfolding program
valid_note = refl

validate_iff_example : (validate note ≡ ok tt) ↔ IsValid note
validate_iff_example = validate_iff note

validate-redact_example : validate (redact "t2" note) ≡ ok tt
validate-redact_example = validate-redact "t2" note valid_note

inspect-secret_iff_example :
    (((inspect env "sk-1").sensitivity ≡ "secret") ↔ (looks_secret env "sk-1" ≡ true))
    × ((looks_secret env "sk-1" ≡ true)
        ⊎ (((inspect env "sk-1").redacted_text ≡ "sk-1")
            × ((inspect env "sk-1").sensitivity ≡ category env "sk-1")))
inspect-secret_iff_example = inspect-secret_iff env "sk-1"

detect_default_example : detect_memory_event_sensitivity env default_guard masked ≡ (
    if holds_secret env masked
    then err sensitive_memory_blocked
    else ok (first_flag env (public_texts masked)))
detect_default_example = detect_default env masked

imported : normalize_import_event env note ≡ ok note
unfolding program
imported = refl

import_safe_example :
    (named : MemoryEvent) × ((b : Bool) × (normalize_identity env note ≡ ok (named, b)))
    × (holds_secret env named ≡ false)
    × (note ≡ record named { sensitivity = note.sensitivity })
    × IsRelabelled env named note
    × (validate note ≡ ok tt)
import_safe_example = import_safe env note note imported

plan_deletes_example :
    All
      (λ a.
        (a.action_type ≢ delete_expired)
        ⊎ Any
            (λ e. IsDeletable env 4 a.memory_id e × (is_candidate default_request e ≡ true))
            (note ∷ []))
      (plan_maintenance_at env (note ∷ []) default_request 4 "maint_1" "t4").actions
plan_deletes_example = plan_deletes env 4 (note ∷ []) default_request "maint_1" "t4"

abbrev texts_before : List String
texts_before = "mem_1" ∷ "t1" ∷ "t1" ∷ "worker" ∷ "op" ∷ "agent" ∷ "cambium" ∷ "lesson" ∷ []

abbrev texts_after : List String
texts_after = "sk-1" ∷ "manual" ∷ "" ∷ "" ∷ "normal" ∷ "ephemeral" ∷ "t3" ∷ []

split : public_texts masked ≡ texts_before ++ "my diagnosis" ∷ texts_after
unfolding public_texts optional_text link_texts
split = refl

calm : All (λ t. (inspect env t).sensitivity ≡ "normal") texts_before
unfolding program
calm = (refl, (refl, (refl, (refl, (refl, (refl, (refl, (refl, tt))))))))

flagged : ((inspect env "my diagnosis").sensitivity == "normal") ≡ false
unfolding program
flagged = refl

quiet : looks_secret env "my diagnosis" ≡ false
unfolding program looks_secret
quiet = refl

found : any (looks_secret env) texts_after ≡ true
unfolding program looks_secret
found = refl

masked_secret_example : (holds_secret env masked ≡ true) × (plan_secret_redaction env masked ≡ [])
masked_secret_example =
    masked_secret env masked texts_before texts_after "my diagnosis" split calm flagged quiet refl
      found

-- An event with a secret and no text of another category.
abbrev leaking : MemoryEvent
leaking = record note { details = "sk-1" }

leaking-NoCategory : NoCategory env leaking
unfolding program looks_secret category public_texts optional_text link_texts
leaking-NoCategory = (
  λ h. refl,
  (
    λ h. refl,
    (
      λ h. refl,
      (
        λ h. refl,
        (
          λ h. refl,
          (
            λ h. refl,
            (
              λ h. refl,
              (
                λ h. refl,
                (
                  λ h. refl,
                  (
                    λ h. refl,
                    (
                      λ h. refl,
                      (λ h. refl, (λ h. refl, (λ h. refl, (λ h. refl, (λ h. refl, tt))))),
                    ),
                  ),
                ),
              ),
            ),
          ),
        ),
      ),
    ),
  ),
)

plan_secret_complete_example : plan_secret_redaction env leaking ≡ (
    if leaking.sensitivity == "secret" || holds_secret env leaking
    then redaction env leaking ∷ []
    else [])
plan_secret_complete_example = plan_secret_complete env leaking leaking-NoCategory

abbrev written : Store
written = record (migrated "t0") { memories = note ∷ []; fts = fts_row note ∷ [] }

wrote : put_in_transaction env (migrated "t0") note ≡ ok written
unfolding program
wrote = refl

put-eq-ok_example : Written env (migrated "t0") note written
put-eq-ok_example = put-eq-ok env (migrated "t0") note wrote
