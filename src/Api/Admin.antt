-- ===== src/Api/Admin.antt =====
-- policy.rs and lib.rs: enabling the coordinated mode, rotating its capability, disabling it.
-- The capability that the random generator gives is an argument.
use tree_ring_memory.Prelude.{
  String, Option, none, some, if◌then◌else◌, ◌>>◌, Result, authorization_denied, ok, err,
}
use tree_ring_memory.Externals.{Externals}
use tree_ring_memory.Store.{Store, unrestricted, coordinated}
use tree_ring_memory.Policy.{
  PolicyGrant, WriteContext, AuthorizationOutcome, allowed, denied, PolicyStatus, policy_status,
  is_unrestricted, validate_optional_label, coordinator_capability_hash, insert_audit,
  authorize_with_policy, authorize_coordinator_action,
}

-- A step that commits whether it grants or denies, as `Ok(Ok(_))` and `Ok(Err(_))`.
unfoldable pub commit_either {ℓ} :
    {A : Type ℓ} → Store → Result (Store × Result A) → Store × Result A
commit_either before (ok (after, result)) = (after, result)
commit_either before (err e) = (before, err e)

-- `COALESCE(?, coordinator_label)`
unfoldable pub coalesce : Option String → Option String → Option String
coalesce none old = old
coalesce (some new) old = some new

module _ (env : Externals) (now : String) (context : WriteContext) where
  unfoldable pub grant_enabled : Option String → String → Store → Store × Result PolicyGrant
  grant_enabled label capability s =
      let s' = record s {
        policy = record {
          mode = coordinated;
          capability_hash = some (coordinator_capability_hash env capability);
          coordinator_label = label;
          enabled_at = some now;
          updated_at = now;
        };
      } in
      (
        insert_audit env now context "policy_enable" "allowed" "coordinated_policy_enabled" none s',
        ok (record { capability = capability; status = policy_status s' }),
      )

  unfoldable pub enable_policy :
      Option String → String → Store → Result (Store × Result PolicyGrant)
  enable_policy label capability s = do
    validate_optional_label env label
    ok (
        if is_unrestricted s.policy.mode then grant_enabled label capability s else (
          insert_audit env now context "policy_enable" "denied" "coordinated_policy_already_enabled"
              none s,
          err (
              authorization_denied
                "coordinated policy is already enabled; rotate the coordinator capability instead"),
        ))

  unfoldable pub grant_rotated :
      Option String → String → AuthorizationOutcome × Store → Store × Result PolicyGrant
  grant_rotated label capability (denied error, s) = (s, err error)
  grant_rotated label capability (allowed, s) =
      let policy = s.policy in
      let s' = record s {
        policy = record policy {
          capability_hash = some (coordinator_capability_hash env capability);
          coordinator_label = coalesce label policy.coordinator_label;
          updated_at = now;
        };
      } in
      (s', ok (record { capability = capability; status = policy_status s' }))

  unfoldable pub rotate_policy_capability :
      Option String → String → Store → Result (Store × Result PolicyGrant)
  rotate_policy_capability label capability s = do
    validate_optional_label env label
    ok (
        if is_unrestricted s.policy.mode
        then (
          insert_audit env now context "policy_rotate" "denied" "coordinated_policy_not_enabled"
              none s,
          err (
              authorization_denied
                "coordinated policy must be enabled before rotating its capability"),
        )
        else grant_rotated label capability
            (authorize_with_policy env now context "policy_rotate" none s.policy s))

  unfoldable pub disabled : AuthorizationOutcome × Store → Store × Result PolicyStatus
  disabled (denied error, s) = (s, err error)
  disabled (allowed, s) =
      let s' = record s {
        policy = record {
          mode = unrestricted;
          capability_hash = none;
          coordinator_label = none;
          enabled_at = none;
          updated_at = now;
        };
      } in
      (s', ok (policy_status s'))

  unfoldable pub enable_coordinated_policy :
      Option String → String → Store → Store × Result PolicyGrant
  enable_coordinated_policy label capability s = commit_either s (enable_policy label capability s)

  unfoldable pub rotate_coordinator_capability :
      Option String → String → Store → Store × Result PolicyGrant
  rotate_coordinator_capability label capability s =
      commit_either s (rotate_policy_capability label capability s)

  unfoldable pub disable_coordinated_policy : Store → Store × Result PolicyStatus
  unfolding disabled
  disable_coordinated_policy s =
      disabled (authorize_coordinator_action env now context "policy_disable" none s)
