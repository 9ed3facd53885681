-- ===== src/Api/Invariant/Policies.antt =====
-- The operations on the policy keep the invariant: they change its row and the audit log.
use tree_ring_memory.Prelude.{
  String, ◌≡◌, refl, inl, inr, Option, none, Bool-cases, ◌>>◌, Result, ok, err,
}
use tree_ring_memory.Externals.{Externals}
use tree_ring_memory.Store.{Store}
use tree_ring_memory.Policy.{
  WriteContext, AuthorizationOutcome, allowed, denied, is_unrestricted, validate_optional_label,
  insert_audit,
}
use tree_ring_memory.Api.Admin.{
  commit_either, grant_enabled, enable_policy, grant_rotated, rotate_policy_capability, disabled,
  enable_coordinated_policy, rotate_coordinator_capability, disable_coordinated_policy,
}
use tree_ring_memory.Api.Invariant.Steps.{IsConsistent}
use tree_ring_memory.Api.Invariant.Guarded.{OnlyAudit, policy-OnlyAudit, action-OnlyAudit}

-- The rows of the tables of memories, and what depends on them, are the same.
pub record SameMemories (s s' : Store) : Type 0 where
  pub memories : s'.memories ≡ s.memories
  pub fts : s'.fts ≡ s.fts
  pub claims : s'.claims ≡ s.claims
  pub tombstones : s'.tombstones ≡ s.tombstones

same : (s : Store) → SameMemories s s
same s = record { memories = refl; fts = refl; claims = refl; tombstones = refl }

audited : {s s' : Store} → OnlyAudit s s' → SameMemories s s'
audited a = record {
  memories = a.memories;
  fts = a.fts;
  claims = a.claims;
  tombstones = a.tombstones;
}

module _ (env : Externals) where
  pub same-IsConsistent :
      {s s' : Store} → SameMemories s s' → IsConsistent env s → IsConsistent env s'
  same-IsConsistent {s} {s'} a c = record {
    unique = rw a.memories c.unique;
    synced = rw a.memories (rw a.fts c.synced);
    rows = rw a.memories (rw a.tombstones c.rows);
  }

  committed :
      {A : Type 0} (checked : Result (Unit {0})) (s : Store) (r : Store × Result A)
      → SameMemories s r.0
      → SameMemories s (commit_either s (checked >> ok r)).0
  unfolding commit_either
  committed (ok tt) s r k = k
  committed (err e) s r k = same s

  module _ (now : String) (context : WriteContext) where
    pub enable-SameMemories :
        (label : Option String) (capability : String) (s : Store)
        → SameMemories s (enable_coordinated_policy env now context label capability s).0
    unfolding enable_coordinated_policy enable_policy grant_enabled insert_audit
    enable-SameMemories label capability s =
        committed (validate_optional_label env label) s _
          (elim (Bool-cases (is_unrestricted s.policy.mode)) [
            | inl p ↦
                rw p (record { memories = refl; fts = refl; claims = refl; tombstones = refl })
            | inr p ↦
                rw p (record { memories = refl; fts = refl; claims = refl; tombstones = refl })
          ])

    granted :
        (label : Option String) (capability : String) (s : Store)
        (auth : AuthorizationOutcome × Store)
        → SameMemories s auth.1
        → SameMemories s (grant_rotated env now context label capability auth).0
    unfolding grant_rotated
    granted label capability s (denied error, s') k = k
    granted label capability s (allowed, s') k = record {
      memories = k.memories;
      fts = k.fts;
      claims = k.claims;
      tombstones = k.tombstones;
    }

    pub rotate-SameMemories :
        (label : Option String) (capability : String) (s : Store)
        → SameMemories s (rotate_coordinator_capability env now context label capability s).0
    unfolding rotate_coordinator_capability rotate_policy_capability insert_audit
    rotate-SameMemories label capability s =
        committed (validate_optional_label env label) s _
          (elim (Bool-cases (is_unrestricted s.policy.mode)) [
            | inl p ↦
                rw p (record { memories = refl; fts = refl; claims = refl; tombstones = refl })
            | inr p ↦ rw p (
                granted label capability s _
                  (audited (policy-OnlyAudit env now context "policy_rotate" none s.policy s)))
          ])

    pub disable-SameMemories :
        (s : Store) → SameMemories s (disable_coordinated_policy env now context s).0
    unfolding disable_coordinated_policy disabled
    disable-SameMemories s =
        closed _ (audited (action-OnlyAudit env now context "policy_disable" none s))
      where
        closed :
            (auth : AuthorizationOutcome × Store)
            → SameMemories s auth.1
            → SameMemories s (disabled env now context auth).0
        closed (denied error, s') k = k
        closed (allowed, s') k = record {
          memories = k.memories;
          fts = k.fts;
          claims = k.claims;
          tombstones = k.tombstones;
        }
