-- ===== src/Api/Protection.antt =====
-- In the coordinated mode, whoever lacks the capability can change no row that is there. This file
-- has what is kept, and the operations that are refused.
pub mod Creations
pub mod Maintained
pub mod Consolidated
pub mod Workers
use tree_ring_memory.Prelude.{
  String, ◌≡◌, refl, ◌∙◌, Bool, true, false, Option, none, some, List, [], length, ◌>>◌, Result, ok,
  err,
}
use tree_ring_memory.Event.{MemoryEvent}
use tree_ring_memory.Externals.{Externals}
use tree_ring_memory.Store.{Store, find_memory}
use tree_ring_memory.Store.Write.{select_event}
use tree_ring_memory.Portability.{normalize_import_events}
use tree_ring_memory.Policy.{
  WriteContext, AuthorizationOutcome, allowed, denied, validate_optional_label, insert_audit,
}
use tree_ring_memory.Api.{ring_body, change_found, change_ring, settle}
use tree_ring_memory.Api.Admin.{
  enable_coordinated_policy, commit_either, enable_policy, grant_rotated, rotate_policy_capability,
  rotate_coordinator_capability,
}
use tree_ring_memory.Api.Batch.{
  import_events, plan_import, first_id, import_report, import_body, import_normalized,
}
use tree_ring_memory.Api.Denials.{
  not_unrestricted, IsUnprivileged, IsDenial, policy-IsDenial, action-IsDenial, denial-IsRefused,
}
use tree_ring_memory.Api.Invariant.Guarded.{OnlyAudit}

-- The policy is the same, and every row is there as it was.
pub record IsKept (s s' : Store) : Type 0 where
  pub policy : s'.policy ≡ s.policy
  pub rows :
      (id : String) (e : MemoryEvent)
      → find_memory id s.memories ≡ some e
      → find_memory id s'.memories ≡ some e

pub IsKept-refl : (s : Store) → IsKept s s
IsKept-refl s = record { policy = refl; rows = λ id e h. h }

pub IsKept-trans : (s t u : Store) → IsKept s t → IsKept t u → IsKept s u
IsKept-trans s t u a b = record {
  policy = b.policy ∙ a.policy;
  rows = λ id e h. b.rows id e (a.rows id e h);
}

pub OnlyAudit-IsKept : {s s' : Store} → OnlyAudit s s' → IsKept s s'
OnlyAudit-IsKept {s} {s'} a = record { policy = a.policy; rows = λ id e h. rw a.memories h }

-- A transaction that was allowed keeps the rows if its body does.
pub settle-IsKept :
    {A : Type 0} (s : Store) (r : Result (Store × A))
    → ((s' : Store) (a : A) → r ≡ ok (s', a) → IsKept s s')
    → IsKept s (settle s r).0
unfolding settle
settle-IsKept s (err e) step = IsKept-refl s
settle-IsKept s (ok (s', a)) step = step s' a refl

module _ (env : Externals) (now : String) (context : WriteContext) where
  pub ring-IsKept :
      (id ring event_type : String) (s : Store)
      → IsUnprivileged env now context s
      → IsKept s (change_ring env now context id ring event_type s).0
  unfolding change_ring change_found
  ring-IsKept id ring event_type s u = go (select_event env id s)
    where
      go :
          (found : Result (Option MemoryEvent))
          → IsKept s (change_found env now context id ring event_type s found).0
      go (err error) = IsKept-refl s
      go (ok none) = IsKept-refl s
      go (ok (some event)) =
          OnlyAudit-IsKept
            (denial-IsRefused env now context "change_ring" s _
              (ring_body env now context id ring event_type event)
              (action-IsDenial env now context "change_ring" (some id) s u)).kept

  pub import-IsKept :
      (events : List MemoryEvent) (dry_run replace_existing : Bool) (s : Store)
      → IsUnprivileged env now context s
      → IsKept s (import_events env now context events dry_run replace_existing s).0
  unfolding import_events import_normalized
  import-IsKept events dry_run replace s u = go dry_run (normalize_import_events env events)
    where
      go :
          (dry : Bool) (normal : Result (List MemoryEvent))
          → IsKept s (import_normalized env now context dry replace s normal).0
      go dry (err error) = IsKept-refl s
      go true (ok normal) = IsKept-refl s
      go false (ok normal) =
          let plan = plan_import replace s [] normal in
          OnlyAudit-IsKept
            (denial-IsRefused env now context "import_jsonl" s _
              (import_body env now context plan (import_report (length normal) false plan))
              (action-IsDenial env now context "import_jsonl" (first_id plan.planned_writes normal)
                s u)).kept

  checked-IsKept :
      {A : Type 0} (checked : Result (Unit {0})) (s : Store) (r : Store × Result A)
      → IsKept s r.0
      → IsKept s (commit_either s (checked >> ok r)).0
  unfolding commit_either
  checked-IsKept (ok tt) s r k = k
  checked-IsKept (err e) s r k = IsKept-refl s

  pub enable-IsKept :
      (label : Option String) (capability : String) (s : Store)
      → IsUnprivileged env now context s
      → IsKept s (enable_coordinated_policy env now context label capability s).0
  unfolding enable_coordinated_policy enable_policy insert_audit
  enable-IsKept label capability s u =
      checked-IsKept (validate_optional_label env label) s _
        (rw (not_unrestricted s.policy.mode u.0) (record { policy = refl; rows = λ id e h. h }))

  pub rotate-IsKept :
      (label : Option String) (capability : String) (s : Store)
      → IsUnprivileged env now context s
      → IsKept s (rotate_coordinator_capability env now context label capability s).0
  unfolding rotate_coordinator_capability rotate_policy_capability
  rotate-IsKept label capability s u = checked-IsKept (validate_optional_label env label) s _ (
      rw (not_unrestricted s.policy.mode u.0)
        (refused _ (policy-IsDenial env now context "policy_rotate" none s u.1)))
    where
      refused :
          (auth : AuthorizationOutcome × Store)
          → IsDenial env now context "policy_rotate" s auth
          → IsKept s (grant_rotated env now context label capability auth).0
      refused (denied error, after) d = unfold grant_rotated in OnlyAudit-IsKept d.kept
      refused (allowed, after) d = absurd (cc d.outcome)
