-- ===== src/Api/Grants.antt =====
-- What the capability of a grant opens.
use tree_ring_memory.Prelude.{
  ℕ, String, ◌≡◌, refl, sym, ap, ◌∙◌, ◌↔◌, Bool, true, false, not, Option, none, some, List, ◌==◌,
  leb, length, as_bytes, ◌>>◌, ensure, >>=-eq-ok, >>-eq-ok, ok-injective, Result, ok, err, subst,
  ◌⊎◌, inl, inr, Bool-cases,
}
use tree_ring_memory.Externals.{Externals}
use tree_ring_memory.Store.{Store, coordinated, PolicyMode, unrestricted, PolicyRow}
use tree_ring_memory.Policy.{
  WriteContext, max_capability_length, allowed, PolicyGrant, is_unrestricted, hashes_match,
  validate_context_value, validate_optional_label, coordinator_capability_hash, context_hash,
  validate_actor, new_context, insert_audit, authorize_with_policy, authorize_coordinator_action,
  AuthorizationOutcome, denied,
}
use tree_ring_memory.Policy.Capability.{constant_time_eq_iff}
use tree_ring_memory.Api.Denials.{not_unrestricted}
use tree_ring_memory.Api.Invariant.Guarded.{policy-OnlyAudit}
use tree_ring_memory.Api.Admin.{
  enable_coordinated_policy, commit_either, grant_enabled, enable_policy, grant_rotated,
  rotate_policy_capability, rotate_coordinator_capability,
}

restricted : (mode : PolicyMode) → is_unrestricted mode ≡ false → mode ≡ coordinated
unfolding is_unrestricted
restricted unrestricted h = cc
restricted coordinated h = refl

module _ (env : Externals) where
  matches_iff :
      (supplied expected : List ℕ)
      → length supplied ≡ length expected
      → (hashes_match (some supplied) (some expected) ≡ true) ↔ (supplied ≡ expected)
  unfolding hashes_match
  matches_iff supplied expected l = constant_time_eq_iff supplied expected l

  context-hash :
      (actor : Option String) (capability origin : String) {context : WriteContext}
      → new_context env actor (some capability) origin ≡ ok context
      → context.capability_hash ≡ some (coordinator_capability_hash env capability)
  unfolding new_context context_hash
  context-hash actor capability origin h =
      let a = >>-eq-ok (validate_actor env actor) _ h in
      let b = >>-eq-ok (validate_context_value env "audit origin" origin) _ a.1 in
      let (hash, made, rest) = >>=-eq-ok (context_hash env (some capability)) _ b.1 in
      let c = >>-eq-ok (ensure (not (capability == "")) _) _ made in
      let d =
        >>-eq-ok (ensure (leb (length (as_bytes capability)) max_capability_length) _) _ c.1 in
      ap (λ (w : WriteContext). w.capability_hash) (sym (ok-injective rest))
      ∙ sym (ok-injective d.1)

  -- The policy row holds the hash of the capability, in the coordinated mode.
  record IsLocked (capability : String) (s : Store) : Type 0 where
    mode : s.policy.mode ≡ coordinated
    hash : s.policy.capability_hash ≡ some (coordinator_capability_hash env capability)

  locked_iff :
      ((xs ys : List ℕ) → length (env.sha256 xs) ≡ length (env.sha256 ys))
      → (s : Store) (capability other : String) (context : WriteContext) (now action : String)
        (target : Option String)
      → IsLocked capability s
      → context.capability_hash ≡ some (coordinator_capability_hash env other)
      → ((authorize_coordinator_action env now context action target s).0 ≡ allowed)
        ↔ (coordinator_capability_hash env other ≡ coordinator_capability_hash env capability)
  unfolding authorize_coordinator_action authorize_with_policy
  locked_iff digests s capability other context now action target l given =
      rw (not_unrestricted s.policy.mode l.mode) (decided _ refl)
    where
      same :
          (hashes_match context.capability_hash s.policy.capability_hash ≡ true)
          ↔ (coordinator_capability_hash env other ≡ coordinator_capability_hash env capability)
      same =
          rw given (rw l.hash (unfold coordinator_capability_hash in matches_iff _ _ (digests _ _)))

      decided :
          (b : Bool)
          → hashes_match context.capability_hash s.policy.capability_hash ≡ b
          → ((authorize_with_policy env now context action target s.policy s).0 ≡ allowed)
            ↔ (coordinator_capability_hash env other ≡ coordinator_capability_hash env capability)
      decided true h = rw h (λ a. same.0 h, λ a. refl)
      decided false h = rw h (λ a. cc, λ a. cc (same.1 a, h))

  committed-ok :
      {A : Type 0} (s : Store) (checked : Result (Unit {0})) (r : Store × Result A) {s' : Store}
      {a : A}
      → commit_either s (checked >> ok r) ≡ (s', ok a)
      → r ≡ (s', ok a)
  unfolding commit_either
  committed-ok s (ok tt) r h = h
  committed-ok s (err e) r h = cc (ap (λ (p : Store × Result _). p.1) h)

  moved :
      {A : Type 0} (capability : String) (r : Store × Result A) {s' : Store} {a : A}
      → IsLocked capability r.0
      → r ≡ (s', ok a)
      → IsLocked capability s'
  moved {A = A} capability r l h =
      subst (IsLocked capability) (ap (λ (p : Store × Result A). p.0) h) l

  enabled-IsLocked :
      (now : String) (context : WriteContext) (label : Option String) (capability : String)
      (s : Store) {s' : Store} {grant : PolicyGrant}
      → enable_coordinated_policy env now context label capability s ≡ (s', ok grant)
      → IsLocked capability s'
  unfolding enable_coordinated_policy enable_policy grant_enabled insert_audit
  enabled-IsLocked now context label capability s h =
      let done = committed-ok s (validate_optional_label env label) _ h in
      elim (Bool-cases (is_unrestricted s.policy.mode)) [
        | inl free ↦
            moved capability (grant_enabled env now context label capability s)
              (record { mode = refl; hash = refl }) (rw free at done)
        | inr closed ↦ cc (ap (λ (p : Store × Result PolicyGrant). p.1) (rw closed at done))
      ]

  rotated_grant :
      (now : String) (context : WriteContext) (label : Option String) (capability : String)
      (s : Store) (auth : AuthorizationOutcome × Store) {s' : Store} {grant : PolicyGrant}
      → s.policy.mode ≡ coordinated
      → auth.1.policy ≡ s.policy
      → grant_rotated env now context label capability auth ≡ (s', ok grant)
      → IsLocked capability s'
  unfolding grant_rotated
  rotated_grant now context label capability s (denied e, after) mode kept h =
      cc (ap (λ (p : Store × Result PolicyGrant). p.1) h)
  rotated_grant now context label capability s (allowed, after) mode kept h =
      moved capability (grant_rotated env now context label capability (allowed, after))
        (record { mode = ap (λ (p : PolicyRow). p.mode) kept ∙ mode; hash = refl }) h

  rotated-IsLocked :
      (now : String) (context : WriteContext) (label : Option String) (capability : String)
      (s : Store) {s' : Store} {grant : PolicyGrant}
      → rotate_coordinator_capability env now context label capability s ≡ (s', ok grant)
      → IsLocked capability s'
  unfolding rotate_coordinator_capability rotate_policy_capability
  rotated-IsLocked now context label capability s h =
      let done = committed-ok s (validate_optional_label env label) _ h in
      elim (Bool-cases (is_unrestricted s.policy.mode)) [
        | inl free ↦ cc (ap (λ (p : Store × Result PolicyGrant). p.1) (rw free at done))
        | inr closed ↦
            rotated_grant now context label capability s _ (restricted s.policy.mode closed)
              (policy-OnlyAudit env now context "policy_rotate" none s.policy s).policy
              (rw closed at done)
      ]

  -- After enabling the coordinated policy or rotating its capability, a context built from a
  -- capability is allowed the coordinator's actions exactly when the hash of that capability is the
  -- hash of the granted one; in particular the granted capability is accepted. It is assumed that
  -- the digests of SHA-256 all have one length.
  pub grant_opens :
      ((xs ys : List ℕ) → length (env.sha256 xs) ≡ length (env.sha256 ys))
      → (now : String) (by : WriteContext) (label : Option String) (capability : String)
        (s s' : Store) (grant : PolicyGrant)
      → (enable_coordinated_policy env now by label capability s ≡ (s', ok grant))
        ⊎ (rotate_coordinator_capability env now by label capability s ≡ (s', ok grant))
      → (actor : Option String) (other origin : String) (context : WriteContext)
      → new_context env actor (some other) origin ≡ ok context
      → (later action : String) (target : Option String)
      → ((authorize_coordinator_action env later context action target s').0 ≡ allowed)
        ↔ (coordinator_capability_hash env other ≡ coordinator_capability_hash env capability)
  grant_opens digests now by label capability s s' grant h actor other origin context made later
        action target =
      locked_iff digests s' capability other context later action target (locked h)
        (context-hash actor other origin made)
    where
      locked :
          (enable_coordinated_policy env now by label capability s ≡ (s', ok grant))
            ⊎ (rotate_coordinator_capability env now by label capability s ≡ (s', ok grant))
          → IsLocked capability s'
      locked (inl enabled) = enabled-IsLocked now by label capability s enabled
      locked (inr rotated) = rotated-IsLocked now by label capability s rotated
