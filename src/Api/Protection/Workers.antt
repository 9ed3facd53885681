-- ===== src/Api/Protection/Workers.antt =====
-- A history of workers leaves the rows that were there.
use tree_ring_memory.Prelude.{
  ℕ, String, ◌≡◌, sym, ap, subst, ◌∙◌, false, Option, List, [], ◌∷◌, All,
}
use tree_ring_memory.Externals.{Externals}
use tree_ring_memory.Store.{Store, coordinated, PolicyRow}
use tree_ring_memory.Policy.{WriteContext, hashes_match}
use tree_ring_memory.Api.History.{
  Operation, call_put, call_put_idempotent, call_put_many, call_supersede, call_delete, call_redact,
  call_change_ring, call_import, call_maintain, call_enable, call_rotate, call_disable,
  call_consolidate, commit, run, commit-IsConsistent,
}
use tree_ring_memory.Api.Denials.{IsUnprivileged, unprivileged-IsRefused}
use tree_ring_memory.Api.Invariant.Steps.{IsConsistent}
use tree_ring_memory.Api.Protection.{
  IsKept, IsKept-refl, IsKept-trans, OnlyAudit-IsKept, ring-IsKept, import-IsKept, enable-IsKept,
  rotate-IsKept,
}
use tree_ring_memory.Api.Protection.Creations.{put-IsKept, many-IsKept, idempotent-IsKept}
use tree_ring_memory.Api.Protection.Consolidated.{consolidate-IsKept}
use tree_ring_memory.Api.Protection.Maintained.{maintain-IsKept}

-- The time and the context of a call.
abbrev pub caller : Operation → String × WriteContext
caller (call_put now c e) = (now, c)
caller (call_put_idempotent now c e) = (now, c)
caller (call_put_many now c es guard) = (now, c)
caller (call_supersede now c old_id new_id) = (now, c)
caller (call_delete now c id) = (now, c)
caller (call_redact now c id) = (now, c)
caller (call_change_ring now c id ring event_type) = (now, c)
caller (call_import now c es dry replace) = (now, c)
caller (call_maintain now c request instant id) = (now, c)
caller (call_enable now c label capability) = (now, c)
caller (call_rotate now c label capability) = (now, c)
caller (call_disable now c) = (now, c)
caller (call_consolidate now c made id instant request) = (now, c)

-- The caller has no capability that matches the hash of the policy.
abbrev pub IsWorker : Option (List ℕ) → Operation → Type 0
IsWorker hash o = hashes_match (caller o).1.capability_hash hash ≡ false

module _ (env : Externals) where
  commit-IsKept :
      (o : Operation) (s : Store)
      → IsConsistent env s
      → IsUnprivileged env (caller o).0 (caller o).1 s
      → IsKept s (commit env o s)
  unfolding commit
  commit-IsKept (call_put now k e) s c u = put-IsKept env now k e s c u
  commit-IsKept (call_put_idempotent now k e) s c u = idempotent-IsKept env now k e s c u
  commit-IsKept (call_put_many now k es guard) s c u = many-IsKept env now k es guard s c u
  commit-IsKept (call_supersede now k old_id new_id) s c u =
      OnlyAudit-IsKept ((unprivileged-IsRefused env now k s u).2 old_id new_id).kept
  commit-IsKept (call_delete now k id) s c u =
      OnlyAudit-IsKept ((unprivileged-IsRefused env now k s u).0 id).kept
  commit-IsKept (call_redact now k id) s c u =
      OnlyAudit-IsKept ((unprivileged-IsRefused env now k s u).1 id).kept
  commit-IsKept (call_change_ring now k id ring event_type) s c u =
      ring-IsKept env now k id ring event_type s u
  commit-IsKept (call_import now k es dry replace) s c u =
      import-IsKept env now k es dry replace s u
  commit-IsKept (call_maintain now k request instant id) s c u =
      maintain-IsKept env now k request instant id s u
  commit-IsKept (call_enable now k label capability) s c u =
      enable-IsKept env now k label capability s u
  commit-IsKept (call_rotate now k label capability) s c u =
      rotate-IsKept env now k label capability s u
  commit-IsKept (call_disable now k) s c u =
      OnlyAudit-IsKept (unprivileged-IsRefused env now k s u).4.kept
  commit-IsKept (call_consolidate now k made id instant request) s c u =
      consolidate-IsKept env now k made id instant request s u

  -- In a consistent store in the coordinated mode, whatever operations of `Operation` are called in
  -- whatever order by callers none of whom has the matching capability, each row that was there is
  -- there unchanged, and so is the policy: workers can neither change nor remove what others wrote.
  pub workers-IsKept :
      (os : List Operation) (s : Store)
      → IsConsistent env s
      → s.policy.mode ≡ coordinated
      → All (IsWorker s.policy.capability_hash) os
      → IsKept s (run env os s)
  unfolding run
  workers-IsKept [] s c mode w = IsKept-refl s
  workers-IsKept (o ∷ os) s c mode w =
      let k = commit-IsKept o s c (mode, w.0) in
      let s1 = commit env o s in
      let mode' : s1.policy.mode ≡ coordinated = ap (λ (p : PolicyRow). p.mode) k.policy ∙ mode in
      let w' : All (IsWorker s1.policy.capability_hash) os =
        subst (λ (p : PolicyRow). All (IsWorker p.capability_hash) os) (sym k.policy) w.1 in
      IsKept-trans s s1 (run env os s1) k
        (workers-IsKept os s1 (commit-IsConsistent env o s c) mode' w')
