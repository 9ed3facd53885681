-- ===== src/Maintenance/Plan.antt =====
-- Which deletions a plan holds.
use tree_ring_memory.Prelude.{
  ℕ, ◌≤◌, String, ◌≡◌, refl, inl, inr, true, false, some, arith, ltb, Bool-cases, All, ◌||◌, Option,
  none, List, [], ◌∷◌, ◌==◌, filter, All-append, Any, All-map, Any-filter, ◌≢◌, ◌⊎◌,
}
use tree_ring_memory.Event.{MemoryEvent}
use tree_ring_memory.Sensitivity.{lenient_guard, detect_memory_event_sensitivity}
use tree_ring_memory.Externals.{Externals}
use tree_ring_memory.Maintenance.{
  delete_expired, MaintenanceAction, protected_memory, temporary_retention, action, plan_instant,
  plan_expiry_text, plan_expiry, MaintenanceRequest, is_candidate, or_secret, plan_secret_redaction,
  plan_actions, plan_maintenance_at, MaintenanceActionType, redact_secret, review_expired_protected,
  review_invalid_expiry,
}

deletion-cases : (t : MaintenanceActionType) → (t ≢ delete_expired) ⊎ (t ≡ delete_expired)
deletion-cases delete_expired = inr refl
deletion-cases redact_secret = inl (λ h. cc)
deletion-cases review_expired_protected = inl (λ h. cc)
deletion-cases review_invalid_expiry = inl (λ h. cc)

module _ (env : Externals) (now : ℕ) where
  -- The event has expired by `now`.
  abbrev pub HasExpired : MemoryEvent → Type 0
  HasExpired e =
      (text : String) × (t : ℕ) × (e.expires_at ≡ some text)
      × (env.parse_rfc3339 text ≡ some t)
      × (t ≤ now)

  -- The event that a deletion is planned for.
  pub record IsDeletable (id : String) (e : MemoryEvent) : Type 0 where
    pub same : e.id ≡ id
    pub expired : HasExpired e
    pub unprotected : protected_memory e ≡ false
    pub temporary : temporary_retention e ≡ true

  abbrev Deletes : MaintenanceAction → (String → Type 0) → Type 0
  Deletes a P = a.action_type ≡ delete_expired → P a.memory_id

  abbrev Sound : MemoryEvent → List MaintenanceAction → Type 0
  Sound e = All (λ a. Deletes a (λ id. IsDeletable id e))

  instant_deletes :
      (e : MemoryEvent) (text : String) (o : Option ℕ)
      → e.expires_at ≡ some text
      → env.parse_rfc3339 text ≡ o
      → Sound e (plan_instant env e now o)
  unfolding plan_instant action
  instant_deletes e text none set read = (λ h. cc, tt)
  instant_deletes e text (some t) set read = elim (Bool-cases (ltb now t)) [
    | inl future ↦ rw future tt
    | inr past ↦ rw past (elim (Bool-cases (protected_memory e)) [
      | inl p ↦ rw p (λ h. cc, tt)
      | inr p ↦ rw p (elim (Bool-cases (temporary_retention e)) [
        | inr k ↦ rw k tt
        | inl k ↦ rw k (
          λ h. record {
            same = refl;
            expired = (text, t, set, read, ground arith);
            unprotected = p;
            temporary = k;
          },
          tt,
        )
      ])
    ])
  ]

  text_deletes :
      (e : MemoryEvent) (o : Option String)
      → e.expires_at ≡ o
      → Sound e (plan_expiry_text env e now o)
  unfolding plan_expiry_text
  text_deletes e none set = tt
  text_deletes e (some text) set = instant_deletes e text (env.parse_rfc3339 text) set refl

  secret_deletes : (e : MemoryEvent) → Sound e (plan_secret_redaction env e)
  unfolding plan_secret_redaction
  secret_deletes e =
      elim (Bool-cases (
        e.sensitivity == "secret"
        || or_secret env (detect_memory_event_sensitivity env lenient_guard e) == "secret")) [
          | inl p ↦ rw p (λ h. cc, tt)
          | inr p ↦ rw p tt
        ]

  actions_delete :
      (es : List MemoryEvent)
      → All (λ a. Deletes a (λ id. Any (IsDeletable id) es)) (plan_actions env now es)
  unfolding plan_actions plan_expiry
  actions_delete [] = tt
  actions_delete (e ∷ es) =
      All-append _ (plan_expiry env e now) _
        (All-map _ (λ a f h. inl (f h)) (text_deletes e e.expires_at refl))
        (All-append _ (plan_secret_redaction env e) _
          (All-map _ (λ a f h. inl (f h)) (secret_deletes e))
          (All-map _ (λ a f h. inr (f h)) (actions_delete es)))

  -- Each deletion that a plan holds is for an event that the request covers, that has expired,
  -- that has a temporary retention, and that is no scar, no heartwood, not durable and not pinned.
  pub plan_deletes :
      (events : List MemoryEvent) (request : MaintenanceRequest) (id generated_at : String)
      → All
          (λ a.
            (a.action_type ≢ delete_expired)
            ⊎ Any (λ e. IsDeletable a.memory_id e × (is_candidate request e ≡ true)) events)
          (plan_maintenance_at env events request now id generated_at).actions
  unfolding plan_maintenance_at
  plan_deletes events request id generated_at =
      All-map _
        (λ a f. elim (deletion-cases a.action_type) [
          | inl other ↦ inl other
          | inr h ↦ inr (Any-filter (IsDeletable a.memory_id) (is_candidate request) events (f h))
        ])
        (actions_delete (filter (is_candidate request) events))
