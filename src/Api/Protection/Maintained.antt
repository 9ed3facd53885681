-- ===== src/Api/Protection/Maintained.antt =====
-- A maintenance run of a worker leaves the rows that are there.
use tree_ring_memory.Prelude.{
  ℕ, String, ◌≡◌, refl, sym, subst, ◌∙◌, inl, inr, Bool, true, false, not, ◌&&◌, ◌||◌, Option, none,
  some, List, [], ◌∷◌, arith, Bool-cases, is_some, All, ok-injective, >>=-eq-ok, Result, ok, err,
}
use tree_ring_memory.Event.{MemoryEvent}
use tree_ring_memory.Externals.{Externals}
use tree_ring_memory.Store.{Store}
use tree_ring_memory.Policy.{WriteContext}
use tree_ring_memory.Maintenance.{MaintenanceAction, MaintenanceRequest, MaintenanceReport}
use tree_ring_memory.Api.Maintain.{
  apply_deletions, is_redaction, is_deletion, first_target, mark, list_all, apply_redactions,
  repair, maintain_body, authorize_maintenance, maintain_planned, maintain_listed, maintain,
}
use tree_ring_memory.Api.{guarded}
use tree_ring_memory.Api.Invariant.Single.{first_eq}
use tree_ring_memory.Api.Denials.{IsUnprivileged, action-IsDenial, denial-IsRefused}
use tree_ring_memory.Api.Protection.{IsKept, IsKept-refl, OnlyAudit-IsKept, settle-IsKept}

-- The action is none of those that the run applies.
abbrev IsIdle : Bool → Bool → MaintenanceAction → Type 0
IsIdle redactions expired a =
    ((is_redaction a.action_type && redactions) ≡ false)
    × ((is_deletion a.action_type && expired) ≡ false)

IsIdle-actions :
    (redactions expired : Bool) (actions : List MaintenanceAction)
    → first_target redactions expired actions ≡ none
    → All (IsIdle redactions expired) actions
unfolding first_target
IsIdle-actions redactions expired [] h = tt
IsIdle-actions redactions expired (a ∷ rest) h =
    elim (Bool-cases
      (is_redaction a.action_type && redactions || is_deletion a.action_type && expired)) [
        | inl hit ↦ cc (rw hit at h)
        | inr miss ↦
            ((ground arith, ground arith), IsIdle-actions redactions expired rest (rw miss at h))
      ]

module _ (env : Externals) where
  idle_redactions :
      (redactions expired : Bool) (now : String) (actions : List MaintenanceAction) (s : Store)
      → All (IsIdle redactions expired) actions
      → apply_redactions env redactions now actions s ≡ ok (s, actions)
  unfolding apply_redactions mark
  idle_redactions redactions expired now [] s i = refl
  idle_redactions redactions expired now (a ∷ rest) s i =
      rw i.0.0 (rw (idle_redactions redactions expired now rest s i.1) refl)

  idle_deletions :
      (redactions expired : Bool) (actions : List MaintenanceAction) (s : Store)
      → All (IsIdle redactions expired) actions
      → (apply_deletions env expired actions s).0 ≡ s
  unfolding apply_deletions
  idle_deletions redactions expired [] s i = refl
  idle_deletions redactions expired (a ∷ rest) s i =
      rw i.0.1 (idle_deletions redactions expired rest s i.1)

  repair_off : (on : Bool) (s : Store) → on ≡ false → repair env on s ≡ ok s
  unfolding repair
  repair_off true s off = cc
  repair_off false s off = refl

  idle_body :
      (request : MaintenanceRequest) (now : String) (report : MaintenanceReport) (s s' : Store)
      (report' : MaintenanceReport)
      → (not request.dry_run && request.repair_fts) ≡ false
      → All
          (IsIdle
            (not request.dry_run && request.apply_secret_redactions)
            (not request.dry_run && request.apply_expired))
          report.actions
      → maintain_body env request now report s ≡ ok (s', report')
      → s ≡ s'
  unfolding maintain_body
  idle_body request now report s s' report' off idle h =
      let redactions = not request.dry_run && request.apply_secret_redactions in
      let expired = not request.dry_run && request.apply_expired in
      let (r, redacted, rest) =
        >>=-eq-ok (apply_redactions env redactions now report.actions s) _ h in
      let same : (s, report.actions) ≡ r =
        ok-injective
          (sym (idle_redactions redactions expired now report.actions s idle) ∙ redacted) in
      let (s3, repaired, end) =
        >>=-eq-ok
          (repair env (not request.dry_run && request.repair_fts)
            (apply_deletions env expired r.1 r.0).0)
          _ rest in
      let deleted : (apply_deletions env expired r.1 r.0).0 ≡ s =
        subst (λ (p : Store × List MaintenanceAction). (apply_deletions env expired p.1 p.0).0 ≡ s)
          same (idle_deletions redactions expired report.actions s idle) in
      let last : (apply_deletions env expired r.1 r.0).0 ≡ s3 =
        ok-injective (sym (repair_off _ _ off) ∙ repaired) in
      sym deleted ∙ last ∙ first_eq end

  module _ (now : String) (context : WriteContext) where
    planned-IsKept :
        (request : MaintenanceRequest) (report : MaintenanceReport) (s : Store)
        → IsUnprivileged env now context s
        → IsKept s (maintain_planned env now context request report s).0
    unfolding maintain_planned authorize_maintenance
    planned-IsKept request report s u =
        let redactions = not request.dry_run && request.apply_secret_redactions in
        let expired = not request.dry_run && request.apply_expired in
        let repairs = not request.dry_run && request.repair_fts in
        let target = first_target redactions expired report.actions in
        elim (Bool-cases (expired || (redactions || repairs))) [
          | inr off ↦ rw off (IsKept-refl s)
          | inl on ↦ rw on (elim (Bool-cases (repairs || is_some target)) [
            | inl asked ↦ rw asked (
                OnlyAudit-IsKept
                  (denial-IsRefused env now context "maintain" s _
                    (maintain_body env request now report)
                    (action-IsDenial env now context "maintain" target s u)).kept)
            | inr free ↦ rw free (
                unfold guarded in
                settle-IsKept s (maintain_body env request now report s) (λ s' r h.
                  subst (IsKept s)
                    (idle_body request now report s s' r (ground arith)
                      (IsIdle-actions redactions expired report.actions
                        (no_target target (ground arith)))
                      h)
                    (IsKept-refl s)))
          ])
        ]
      where
        no_target : (o : Option String) → is_some o ≡ false → o ≡ none
        no_target none h = refl
        no_target (some t) h = cc

    pub maintain-IsKept :
        (request : MaintenanceRequest) (instant : ℕ) (id : String) (s : Store)
        → IsUnprivileged env now context s
        → IsKept s (maintain env now context request instant id s).0
    unfolding maintain maintain_listed
    maintain-IsKept request instant id s u = go (list_all env true s)
      where
        go :
            (listed : Result (List MemoryEvent))
            → IsKept s (maintain_listed env now context request instant id s listed).0
        go (err error) = IsKept-refl s
        go (ok events) = planned-IsKept request _ s u
