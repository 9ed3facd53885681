-- ===== src/Api/Frame/Audited.antt =====
-- Every operation satisfies a frame, and the audit log as the frame that shows it.
use tree_ring_memory.Prelude.{
  String, ◌≡◌, refl, sym, ap, ◌∙◌, inl, inr, Bool, Option, none, some, List, [], ◌∷◌, ◌++◌,
  Bool-cases, ok-injective, >>=-eq-ok, ok,
}
use tree_ring_memory.Event.{MemoryEvent}
use tree_ring_memory.Externals.{Externals}
use tree_ring_memory.Store.{Store, AuditRow}
use tree_ring_memory.Sensitivity.{check_or_raise, default_guard}
use tree_ring_memory.Store.Write.{
  put_in_transaction, redact_found, supersede_found, select_event, delete_in_transaction,
  redact_in_transaction, supersede_in_transaction,
}
use tree_ring_memory.Store.Write.Inversion.{put-eq-ok}
use tree_ring_memory.Policy.{
  WriteContext, AuthorizationOutcome, allowed, denied, is_unrestricted, validate_optional_label,
  insert_audit,
}
use tree_ring_memory.Api.Admin.{
  enable_coordinated_policy, grant_enabled, enable_policy, grant_rotated, rotate_policy_capability,
  disabled, rotate_coordinator_capability, disable_coordinated_policy,
}
use tree_ring_memory.Api.Maintain.{rebuild_fts, order_by_created, collect_rows}
use tree_ring_memory.Api.History.{
  Operation, call_put, call_put_idempotent, call_put_many, call_supersede, call_delete, call_redact,
  call_change_ring, call_import, call_maintain, call_enable, call_rotate, call_disable,
  call_consolidate, commit, run,
}
use tree_ring_memory.Api.Invariant.Single.{first_eq}
use tree_ring_memory.Api.Frame.{
  IsFrame, authorized, action_frame, put_frame, idempotent_frame, supersede_frame, delete_frame,
  redact_frame, ring_frame,
}
use tree_ring_memory.Api.Frame.Consolidated.{consolidate_frame}
use tree_ring_memory.Api.Frame.Many.{checked_frame, many_frame, import_frame, maintain_frame}

module _ (env : Externals) (R : Store → Store → Type 0) (f : IsFrame env R) where
  module _ (now : String) (context : WriteContext) where
    enable_frame :
        (label : Option String) (capability : String) (s : Store)
        → R s (enable_coordinated_policy env now context label capability s).0
    unfolding enable_coordinated_policy enable_policy grant_enabled
    enable_frame label capability s =
        checked_frame env R f (validate_optional_label env label) s _
          (elim (Bool-cases (is_unrestricted s.policy.mode)) [
            | inl free ↦ rw free (
                f.chain s _ _ (f.policy_step s _) (
                  f.audit_step now context "policy_enable" "allowed" "coordinated_policy_enabled"
                    none _))
            | inr closed ↦ rw closed (f.audit_step now context "policy_enable" "denied" _ none s)
          ])

    rotate_frame :
        (label : Option String) (capability : String) (s : Store)
        → R s (rotate_coordinator_capability env now context label capability s).0
    unfolding rotate_coordinator_capability rotate_policy_capability
    rotate_frame label capability s =
        checked_frame env R f (validate_optional_label env label) s _
          (elim (Bool-cases (is_unrestricted s.policy.mode)) [
            | inl free ↦ rw free (f.audit_step now context "policy_rotate" "denied" _ none s)
            | inr closed ↦
                rw closed
                  (granted _ (authorized env R f now context "policy_rotate" none s.policy s))
          ])
      where
        granted :
            (auth : AuthorizationOutcome × Store)
            → R s auth.1
            → R s (grant_rotated env now context label capability auth).0
        granted (denied error, after) k = unfold grant_rotated in k
        granted (allowed, after) k =
            unfold grant_rotated in f.chain s after _ k (f.policy_step after _)

    disable_frame : (s : Store) → R s (disable_coordinated_policy env now context s).0
    unfolding disable_coordinated_policy
    disable_frame s = closed _ (action_frame env R f now context "policy_disable" none s)
      where
        closed :
            (auth : AuthorizationOutcome × Store)
            → R s auth.1
            → R s (disabled env now context auth).0
        closed (denied error, after) k = unfold disabled in k
        closed (allowed, after) k = unfold disabled in f.chain s after _ k (f.policy_step after _)

  pub commit_frame : (o : Operation) (s : Store) → R s (commit env o s)
  unfolding commit
  commit_frame (call_put now k e) s = put_frame env R f now k e s
  commit_frame (call_put_idempotent now k e) s = idempotent_frame env R f now k e s
  commit_frame (call_put_many now k es guard) s = many_frame env R f now k es guard s
  commit_frame (call_supersede now k old_id new_id) s =
      supersede_frame env R f now k old_id new_id s
  commit_frame (call_delete now k id) s = delete_frame env R f now k id s
  commit_frame (call_redact now k id) s = redact_frame env R f now k id s
  commit_frame (call_change_ring now k id ring event_type) s =
      ring_frame env R f now k id ring event_type s
  commit_frame (call_import now k es dry replace) s = import_frame env R f now k es dry replace s
  commit_frame (call_maintain now k request instant id) s =
      maintain_frame env R f now k request instant id s
  commit_frame (call_enable now k label capability) s = enable_frame now k label capability s
  commit_frame (call_rotate now k label capability) s = rotate_frame now k label capability s
  commit_frame (call_disable now k) s = disable_frame now k s
  commit_frame (call_consolidate now k made id instant request) s =
      consolidate_frame env R f now k made id instant request s

  -- What every step satisfies holds between the ends of a history.
  pub run_frame : (os : List Operation) (s : Store) → R s (run env os s)
  unfolding run
  run_frame [] s = f.same s
  run_frame (o ∷ os) s =
      f.chain s (commit env o s) (run env os (commit env o s)) (commit_frame o s)
        (run_frame os (commit env o s))

-- The audit log has the rows that it had, in their order, and perhaps new ones after them.
abbrev pub IsLonger : Store → Store → Type 0
IsLonger s s' = (rows : List AuditRow) × (s'.authorization_audit ≡ s.authorization_audit ++ rows)

nil_right : (xs : List AuditRow) → xs ++ [] ≡ xs
nil_right [] = refl
nil_right (x ∷ xs) = ap (◌∷◌ x) (nil_right xs)

append_assoc : (xs ys zs : List AuditRow) → (xs ++ ys) ++ zs ≡ xs ++ (ys ++ zs)
append_assoc [] ys zs = refl
append_assoc (x ∷ xs) ys zs = ap (◌∷◌ x) (append_assoc xs ys zs)

unchanged : (s s' : Store) → s'.authorization_audit ≡ s.authorization_audit → IsLonger s s'
unchanged s s' h = ([], h ∙ sym (nil_right s.authorization_audit))

module _ (env : Externals) where
  redacted_log :
      (s s' : Store) (now : String) (o : Option MemoryEvent) (b : Bool)
      → redact_found env s now o ≡ ok (s', b)
      → s'.authorization_audit ≡ s.authorization_audit
  unfolding redact_found
  redacted_log s s' now none b h = ap (λ (x : Store). x.authorization_audit) (sym (first_eq h))
  redacted_log s s' now (some e) b h =
      let (s1, wrote, rest) = >>=-eq-ok (put_in_transaction env s _) _ h in
      ap (λ (x : Store). x.authorization_audit) (sym (first_eq rest))
      ∙ (put-eq-ok env s _ wrote).authorization_audit

  superseded_log :
      (s : Store) (new_id : String) (o : Option MemoryEvent)
      → (supersede_found env s new_id o).0.authorization_audit ≡ s.authorization_audit
  unfolding supersede_found
  superseded_log s new_id none = refl
  superseded_log s new_id (some e) = refl

  log-IsFrame : IsFrame env IsLonger
  unfolding redact_in_transaction supersede_in_transaction delete_in_transaction rebuild_fts
      insert_audit
  log-IsFrame = record {
    same = λ s. unchanged s s refl;
    chain = λ s t u a b. (
      a.0 ++ b.0,
      b.1
          ∙ ap (λ (rows : List AuditRow). rows ++ b.0) a.1
          ∙ append_assoc s.authorization_audit a.0 b.0,
    );
    put_step = λ s s' e h. unchanged s s' (put-eq-ok env s e h).authorization_audit;
    redact_step = λ s s' now id b h.
        let (o, read, rest) = >>=-eq-ok (select_event env id s) _ h in
        unchanged s s' (redacted_log s s' now o b rest);
    supersede_step = λ s s' old_id new_id b h.
        let (r, checked, rest) = >>=-eq-ok (check_or_raise env default_guard new_id) _ h in
        let (o, read, end) = >>=-eq-ok (select_event env old_id s) _ rest in
        unchanged s s' (
          ap (λ (x : Store). x.authorization_audit) (sym (first_eq end))
          ∙ superseded_log s new_id o);
    delete_step = λ s id. unchanged s (delete_in_transaction env s id).0 refl;
    rebuild_step = λ s s' h.
        let (es, read, end) = >>=-eq-ok (collect_rows env (order_by_created s.memories)) _ h in
        unchanged s s' (ap (λ (x : Store). x.authorization_audit) (sym (ok-injective end)));
    audit_step = λ now context action decision reason target s. (_, refl);
    policy_step = λ s p. unchanged s (record s { policy = p }) refl;
    record_step = λ s rows. unchanged s (record s { consolidations = rows }) refl;
  }

  -- The audit log only grows: whatever operations of `Operation` are called, in whatever order and
  -- with whatever results, the rows that were there stay first and in their order.
  pub log-IsLonger : (os : List Operation) (s : Store) → IsLonger s (run env os s)
  log-IsLonger os s = run_frame env IsLonger log-IsFrame os s
