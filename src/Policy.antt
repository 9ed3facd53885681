-- ===== src/Policy.antt =====
-- crates/tree-ring-memory-sqlite/src/policy.rs: who may write. In the coordinated mode a shared
-- or destructive write wants the coordinator's capability; every decision is audited.
pub mod Capability
pub mod Decisions
use tree_ring_memory.Prelude.{
  ℕ, String, Bool, true, false, not, ◌&&◌, ◌||◌, Option, none, some, List, [], ◌∷◌, ◌++◌, ◌==◌, leb,
  eqb, if◌then◌else◌, is_some, option_eq, length, all, contains, is_empty, is_blank, has_control,
  chars_count, as_bytes, ◌>>=◌, ◌>>◌, ensure, TreeRingError, Result, validation,
  authorization_denied, ok, err,
}
use Prim.Native.Nat.{bit_or, bit_xor}
use Prim.Native.String.{◌++◌ as append}
use tree_ring_memory.Event.{MemoryEvent}
use tree_ring_memory.Externals.{Externals}
use tree_ring_memory.Legacy.{hex}
use tree_ring_memory.Sensitivity.{default_guard, check_or_raise}
use tree_ring_memory.Store.{Store, PolicyMode, unrestricted, coordinated, PolicyRow, exists_memory}
use tree_ring_memory.Store.Write.{be_bytes64}

abbrev pub max_context_value_length : ℕ
max_context_value_length = 256

abbrev pub max_capability_length : ℕ
max_capability_length = 4096

pub record WriteContext : Type 0 where
  pub actor_profile : Option String
  pub capability_hash : Option (List ℕ)
  pub origin : String

-- `WriteContext::anonymous()`
abbrev pub anonymous : WriteContext
anonymous = record { actor_profile = none; capability_hash = none; origin = "anonymous" }

pub data AuthorizationOutcome : Type 0 where
  allowed : AuthorizationOutcome
  denied : TreeRingError → AuthorizationOutcome

pub record PolicyStatus : Type 0 where
  pub mode : PolicyMode
  pub coordinator_label : Option String
  pub enabled_at : Option String
  pub updated_at : String

pub record PolicyGrant : Type 0 where
  pub capability : String
  pub status : PolicyStatus

-- the fold of `constant_time_eq` over the pairs of bytes
unfoldable pub difference : ℕ → List ℕ → List ℕ → ℕ
difference d [] ys = d
difference d (x ∷ xs) [] = d
difference d (x ∷ xs) (y ∷ ys) = difference (bit_or d (bit_xor x y)) xs ys

unfoldable pub constant_time_eq : List ℕ → List ℕ → Bool
unfolding difference
constant_time_eq left right = eqb (difference 0 left right) 0

-- one byte of a target that may be shown as it is
unfoldable pub is_plain_byte : ℕ → Bool
is_plain_byte b =
    leb b'0' b && leb b b'9'
    || leb b'A' b && leb b b'Z'
    || leb b'a' b && leb b b'z'
    || eqb b b'_'
    || eqb b b'-'
    || eqb b b'.'
    || eqb b b':'

unfoldable pub is_ok {ℓ} : {A : Type ℓ} → Result A → Bool
is_ok (ok a) = true
is_ok (err e) = false

-- `policy_status_on_connection`
unfoldable pub policy_status : Store → PolicyStatus
policy_status s = record {
  mode = s.policy.mode;
  coordinator_label = s.policy.coordinator_label;
  enabled_at = s.policy.enabled_at;
  updated_at = s.policy.updated_at;
}

unfoldable pub is_unrestricted : PolicyMode → Bool
is_unrestricted unrestricted = true
is_unrestricted coordinated = false

unfoldable pub unprivileged_create_allowed : WriteContext → MemoryEvent → Bool
unprivileged_create_allowed context e =
    e.scope == "agent"
    && not (e.ring == "heartwood")
    && option_eq context.actor_profile e.agent_profile
    && is_some context.actor_profile

-- The `find_map` of `authorize_event_creates`, with the ids seen so far: the first event that is
-- not a plain creation by the worker itself.
unfoldable pub protected_target :
    WriteContext → Store → List String → List MemoryEvent → Option String
unfolding unprivileged_create_allowed
protected_target context s seen [] = none
protected_target context s seen (e ∷ es) =
    let rest = protected_target context s (e.id ∷ seen) es in
    if exists_memory e.id s.memories
    then some e.id
    else if not (contains seen e.id) && unprivileged_create_allowed context e
    then rest
    else some e.id

-- `supplied.zip(expected).is_some_and(constant_time_eq)`
unfoldable pub hashes_match : Option (List ℕ) → Option (List ℕ) → Bool
unfolding constant_time_eq
hashes_match (some supplied) (some expected) = constant_time_eq supplied expected
hashes_match (some supplied) none = false
hashes_match none expected = false

module _ (env : Externals) where
  unfoldable pub validate_context_value : String → String → Result (Unit {0})
  validate_context_value field value = do
    ensure (not (is_blank value)) (validation (append field " cannot be blank"))
    ensure (leb (chars_count value) max_context_value_length)
        (validation (append field " must be at most 256 characters"))
    ensure (not (has_control value))
        (validation (append field " cannot contain control characters"))
    _ ← check_or_raise env default_guard value
    ok tt

  unfoldable pub validate_optional_label : Option String → Result (Unit {0})
  validate_optional_label none = ok tt
  validate_optional_label (some label) = validate_context_value "coordinator label" label

  unfoldable pub coordinator_capability_hash : String → List ℕ
  coordinator_capability_hash capability = env.sha256 (
      as_bytes "tree-ring-coordinator-capability-v1"
      ++ (0 ∷ (be_bytes64 (length (as_bytes capability)) ++ as_bytes capability)))

  unfoldable pub context_hash : Option String → Result (Option (List ℕ))
  context_hash none = ok none
  context_hash (some capability) = do
    ensure (not (capability == "")) (validation "coordinator capability cannot be empty")
    ensure (leb (length (as_bytes capability)) max_capability_length)
        (validation "coordinator capability must be at most 4096 bytes")
    ok (some (coordinator_capability_hash capability))

  unfoldable pub validate_actor : Option String → Result (Unit {0})
  validate_actor none = ok tt
  validate_actor (some actor) = validate_context_value "actor_profile" actor

  -- `WriteContext::new`
  unfoldable pub new_context : Option String → Option String → String → Result WriteContext
  new_context actor capability origin = do
    validate_actor actor
    validate_context_value "audit origin" origin
    hash ← context_hash capability
    ok (record { actor_profile = actor; capability_hash = hash; origin = origin })

  unfoldable pub normalize_audit_target : String → String
  normalize_audit_target value =
      if not (value == "")
        && leb (length (as_bytes value)) max_context_value_length
        && all is_plain_byte (as_bytes value)
        && is_ok (check_or_raise env default_guard value)
      then value
      else append "sha256:" (
          hex (
            env.sha256 (
              as_bytes "tree-ring-authorization-audit-target-v1"
              ++ (0 ∷ (be_bytes64 (length (as_bytes value)) ++ as_bytes value)))))

  unfoldable pub audit_target : Option String → Option String
  audit_target none = none
  audit_target (some value) = some (normalize_audit_target value)

  module _ (now : String) (context : WriteContext) where
    unfoldable pub insert_audit : String → String → String → Option String → Store → Store
    insert_audit action decision reason target s = record s {
      authorization_audit =
          s.authorization_audit
          ++ record {
            created_at = now;
            action = action;
            decision = decision;
            reason = reason;
            actor_profile = context.actor_profile;
            origin = context.origin;
            target_memory_id = audit_target target;
          }
            ∷ [];
    }

    unfoldable pub authorize_with_policy :
        String → Option String → PolicyRow → Store → AuthorizationOutcome × Store
    authorize_with_policy action target policy s =
        if hashes_match context.capability_hash policy.capability_hash
        then (allowed, insert_audit action "allowed" "valid_coordinator_capability" target s)
        else (
          denied
              (authorization_denied "coordinator capability required by coordinated store policy"),
          insert_audit action "denied"
              (if is_some context.capability_hash
                then "invalid_coordinator_capability"
                else "missing_coordinator_capability")
              target s,
        )

    unfoldable pub authorize_coordinator_action :
        String → Option String → Store → AuthorizationOutcome × Store
    authorize_coordinator_action action target s =
        if is_unrestricted s.policy.mode
        then (allowed, s)
        else authorize_with_policy action target s.policy s

    -- the end of `authorize_event_creates`
    unfoldable pub authorize_target : String → Option String → Store → AuthorizationOutcome × Store
    authorize_target action none s = (allowed, s)
    authorize_target action (some target) s = authorize_with_policy action (some target) s.policy s

    unfoldable pub authorize_event_creates :
        String → List MemoryEvent → Store → AuthorizationOutcome × Store
    unfolding authorize_target
    authorize_event_creates action events s =
        if is_unrestricted s.policy.mode || is_empty events
        then (allowed, s)
        else authorize_target action (protected_target context s [] events) s
