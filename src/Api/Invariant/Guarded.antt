-- ===== src/Api/Invariant/Guarded.antt =====
-- What an authorization changes, and how a property of the tables passes through a transaction.
use tree_ring_memory.Prelude.{
  String, ◌≡◌, refl, inl, inr, ◌||◌, Option, none, some, List, [], Bool-cases, is_empty, Result, ok,
  err,
}
use tree_ring_memory.Event.{MemoryEvent}
use tree_ring_memory.Externals.{Externals}
use tree_ring_memory.Store.{Store, PolicyRow}
use tree_ring_memory.Policy.{
  WriteContext, AuthorizationOutcome, allowed, denied, is_unrestricted, protected_target,
  hashes_match, insert_audit, authorize_with_policy, authorize_coordinator_action, authorize_target,
  authorize_event_creates,
}
use tree_ring_memory.Api.{guarded, settle}
use tree_ring_memory.Api.Invariant.Steps.{IsConsistent}

-- The audit log is all that differs.
pub record OnlyAudit (s s' : Store) : Type 0 where
  pub memories : s'.memories ≡ s.memories
  pub fts : s'.fts ≡ s.fts
  pub claims : s'.claims ≡ s.claims
  pub tombstones : s'.tombstones ≡ s.tombstones
  pub policy : s'.policy ≡ s.policy
  pub consolidations : s'.consolidations ≡ s.consolidations

pub OnlyAudit-refl : (s : Store) → OnlyAudit s s
OnlyAudit-refl s = record {
  memories = refl;
  fts = refl;
  claims = refl;
  tombstones = refl;
  policy = refl;
  consolidations = refl;
}

-- A property of the tables passes through a transaction when the audit rows and the body keep it.
pub guarded_keeps {ℓ} :
    {A : Type ℓ} (P : Store → Type 0) (s : Store) (auth : AuthorizationOutcome × Store)
    (body : Store → Result (Store × A))
    → P s
    → P auth.1
    → ((s' : Store) (a : A) → body auth.1 ≡ ok (s', a) → P s')
    → P (guarded s auth body).0
unfolding guarded settle
guarded_keeps {A = A} P s (denied error, audited) body before after step = after
guarded_keeps {A = A} P s (allowed, audited) body before after step = ends (body audited) step
  where
    ends :
        (r : Result (Store × A)) → ((s' : Store) (a : A) → r ≡ ok (s', a) → P s') → P (settle s r).0
    ends (err e) step = before
    ends (ok (s', a)) step = step s' a refl

module _ (env : Externals) (now : String) (context : WriteContext) where
  insert_audit-OnlyAudit :
      (action decision reason : String) (target : Option String) (s : Store)
      → OnlyAudit s (insert_audit env now context action decision reason target s)
  unfolding insert_audit
  insert_audit-OnlyAudit action decision reason target s = record {
    memories = refl;
    fts = refl;
    claims = refl;
    tombstones = refl;
    policy = refl;
    consolidations = refl;
  }

  pub policy-OnlyAudit :
      (action : String) (target : Option String) (policy : PolicyRow) (s : Store)
      → OnlyAudit s (authorize_with_policy env now context action target policy s).1
  unfolding authorize_with_policy
  policy-OnlyAudit action target policy s =
      elim (Bool-cases (hashes_match context.capability_hash policy.capability_hash)) [
        | inl p ↦ rw p (insert_audit-OnlyAudit action _ _ target s)
        | inr p ↦ rw p (insert_audit-OnlyAudit action _ _ target s)
      ]

  pub action-OnlyAudit :
      (action : String) (target : Option String) (s : Store)
      → OnlyAudit s (authorize_coordinator_action env now context action target s).1
  unfolding authorize_coordinator_action
  action-OnlyAudit action target s = elim (Bool-cases (is_unrestricted s.policy.mode)) [
    | inl p ↦ rw p (OnlyAudit-refl s)
    | inr p ↦ rw p (policy-OnlyAudit action target s.policy s)
  ]

  pub creates-OnlyAudit :
      (action : String) (events : List MemoryEvent) (s : Store)
      → OnlyAudit s (authorize_event_creates env now context action events s).1
  unfolding authorize_event_creates authorize_target
  creates-OnlyAudit action events s =
      elim (Bool-cases (is_unrestricted s.policy.mode || is_empty events)) [
        | inl p ↦ rw p (OnlyAudit-refl s)
        | inr p ↦ rw p (target_only (protected_target context s [] events))
      ]
    where
      target_only :
          (o : Option String) → OnlyAudit s (authorize_target env now context action o s).1
      target_only none = OnlyAudit-refl s
      target_only (some target) = policy-OnlyAudit action (some target) s.policy s

  pub audit-IsConsistent :
      {s s' : Store} → OnlyAudit s s' → IsConsistent env s → IsConsistent env s'
  audit-IsConsistent {s} {s'} a c = record {
    unique = rw a.memories c.unique;
    synced = rw a.memories (rw a.fts c.synced);
    rows = rw a.memories (rw a.tombstones c.rows);
  }
