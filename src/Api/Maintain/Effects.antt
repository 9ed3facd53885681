-- ===== src/Api/Maintain/Effects.antt =====
-- What `maintain` reports and changes.
use tree_ring_memory.Prelude.{
  ◌≡◌, refl, sym, ap, ◌∙◌, inl, inr, Bool, false, some, List, [], ◌∷◌, map, ◌==◌, eq_refl,
  Bool-cases, length, filter, head?, All, is_empty, All-map, ℕ, String, true, not, ◌&&◌, ◌||◌,
  Option, none, arith, ltb, if◌then◌else◌, any, All-append, ok,
}
use tree_ring_memory.Event.{MemoryEvent}
use tree_ring_memory.Externals.{Externals}
use tree_ring_memory.Policy.{WriteContext}
use tree_ring_memory.Sensitivity.{lenient_guard, detect_memory_event_sensitivity}
use tree_ring_memory.Maintenance.{
  MaintenanceAction, MaintenanceRequest, MaintenanceReport, protected_memory, temporary_retention,
  action, is_candidate, plan_instant, plan_expiry_text, plan_expiry, or_secret,
  plan_secret_redaction, plan_actions, plan_maintenance_at,
}
use tree_ring_memory.Store.{Store, FtsRow, rows_of, find_memory, fts_row, fts_of}
use tree_ring_memory.Api.Maintain.{
  missing_rows, orphan_rows, fts_report, order_by_created, is_current, maintenance_status,
  with_status, list_all, maintain_planned, maintain_listed, maintain,
}
use tree_ring_memory.Api.Invariant.Steps.{IsConsistent}
use tree_ring_memory.Api.Invariant.Rebuilt.{All-found, All-order, collect_valid, rows_valid}

filter-none :
    {A : Type 0} (p : A → Bool) (xs : List A) → All (λ x. p x ≡ false) xs → filter p xs ≡ []
unfolding filter
filter-none p [] h = refl
filter-none p (x ∷ xs) h = rw h.0 (filter-none p xs h.1)

fts-own : (rows : List FtsRow) → All (λ (r : FtsRow). is_empty (fts_of r.id rows) ≡ false) rows
unfolding fts_of filter
fts-own [] = tt
fts-own (r ∷ rows) = (rw (eq_refl r.id) refl, All-map rows (λ r' h. grown r' h) (fts-own rows))
  where
    grown :
        (r' : FtsRow)
        → (is_empty (fts_of r'.id rows) ≡ false)
        → is_empty (fts_of r'.id (r ∷ rows)) ≡ false
    grown r' h = elim (Bool-cases (r.id == r'.id)) [ inl p ↦ rw p refl | inr p ↦ rw p h ]

module _ (env : Externals) where
  -- On consistent tables the report of the search index counts no missing and no orphan row.
  pub no_drift :
      (s : Store) (repaired : Bool)
      → IsConsistent env s
      → ((fts_report s repaired).missing_fts_rows ≡ 0)
        × ((fts_report s repaired).orphan_fts_rows ≡ 0)
  unfolding fts_report missing_rows orphan_rows find_memory
  no_drift s repaired c = (
    ap length (
        filter-none _ s.memories
          (All-map s.memories (λ e f. indexed e f) (All-found s.memories c.unique))),
    ap length (filter-none _ s.fts (All-map s.fts (λ r f. owned r f) (fts-own s.fts))),
  )
    where
      found_row :
          (rows : List MemoryEvent) (e : MemoryEvent)
          → head? rows ≡ some e
          → is_empty (map fts_row rows) ≡ false
      found_row [] e h = cc
      found_row (x ∷ xs) e h = refl

      no_row : (rows : List MemoryEvent) → is_empty (map fts_row rows) ≡ is_empty rows
      no_row [] = refl
      no_row (x ∷ xs) = refl

      indexed :
          (e : MemoryEvent)
          → find_memory e.id s.memories ≡ some e
          → is_empty (fts_of e.id s.fts) ≡ false
      indexed e f = rw (c.synced e.id) (found_row (rows_of e.id s.memories) e f)

      owned :
          (r : FtsRow)
          → is_empty (fts_of r.id s.fts) ≡ false
          → is_empty (rows_of r.id s.memories) ≡ false
      owned r f = sym (no_row (rows_of r.id s.memories)) ∙ (rw (c.synced r.id) at f)

-- The action is planned, and not applied.
abbrev pub IsPlanned : MaintenanceAction → Type 0
IsPlanned a = a.applied ≡ false

any-planned :
    (actions : List MaintenanceAction)
    → All IsPlanned actions
    → any (λ (a : MaintenanceAction). not a.applied) actions ≡ not (is_empty actions)
unfolding any
any-planned [] h = refl
any-planned (a ∷ as') h = rw h.0 refl

pub All-filter :
    (P : MemoryEvent → Type 0) (p : MemoryEvent → Bool) (xs : List MemoryEvent)
    → All P xs
    → All P (filter p xs)
unfolding filter
All-filter P p [] h = tt
All-filter P p (x ∷ xs) h = elim (Bool-cases (p x)) [
  | inl kept ↦ rw kept (h.0, All-filter P p xs h.1)
  | inr dropped ↦ rw dropped (All-filter P p xs h.1)
]

module _ (env : Externals) where
  instant-IsPlanned :
      (e : MemoryEvent) (now : ℕ) (o : Option ℕ) → All IsPlanned (plan_instant env e now o)
  unfolding plan_instant action
  instant-IsPlanned e now none = (refl, tt)
  instant-IsPlanned e now (some t) = elim (Bool-cases (ltb now t)) [
    | inl future ↦ rw future tt
    | inr past ↦ rw past (elim (Bool-cases (protected_memory e)) [
      | inl p ↦ rw p (refl, tt)
      | inr p ↦
          rw p (elim (Bool-cases (temporary_retention e)) [
            | inl k ↦ rw k (refl, tt)
            | inr k ↦ rw k tt
          ])
    ])
  ]

  expiry-IsPlanned :
      (e : MemoryEvent) (now : ℕ) (o : Option String) → All IsPlanned (plan_expiry_text env e now o)
  unfolding plan_expiry_text
  expiry-IsPlanned e now none = tt
  expiry-IsPlanned e now (some text) = instant-IsPlanned e now (env.parse_rfc3339 text)

  secret-IsPlanned : (e : MemoryEvent) → All IsPlanned (plan_secret_redaction env e)
  unfolding plan_secret_redaction
  secret-IsPlanned e =
      elim (Bool-cases (
        e.sensitivity == "secret"
        || or_secret env (detect_memory_event_sensitivity env lenient_guard e) == "secret")) [
          | inl p ↦ rw p (refl, tt)
          | inr p ↦ rw p tt
        ]

  actions-IsPlanned : (now : ℕ) (es : List MemoryEvent) → All IsPlanned (plan_actions env now es)
  unfolding plan_actions plan_expiry
  actions-IsPlanned now [] = tt
  actions-IsPlanned now (e ∷ es) =
      All-append IsPlanned (plan_expiry env e now) _ (expiry-IsPlanned e now e.expires_at) (
        All-append IsPlanned (plan_secret_redaction env e) _ (secret-IsPlanned e)
          (actions-IsPlanned now es))

  -- The list of the rows, all of them or the current ones, is read without an error.
  pub listed :
      (include_superseded : Bool) (s : Store)
      → IsConsistent env s
      → list_all env include_superseded s
        ≡ ok (order_by_created (filter (is_current include_superseded) s.memories))
  unfolding list_all
  listed include_superseded s c =
      collect_valid env _ (
        All-order _ _
          (All-filter _ (is_current include_superseded) s.memories (rows_valid env s c)))

  dry : (b c : Bool) → b ≡ true → (not b && c) ≡ false
  dry b c h = ground arith

  -- A dry run of `maintain` on consistent tables succeeds, changes nothing, and reports only
  -- actions that are planned and not applied; the status is clean if there is none, else planned.
  pub maintain_dry_run :
      (now : String) (context : WriteContext) (request : MaintenanceRequest) (instant : ℕ)
      (id : String) (s : Store)
      → IsConsistent env s
      → request.dry_run ≡ true
      → (report : MaintenanceReport) × (maintain env now context request instant id s
          ≡ (s, ok report))
        × All IsPlanned report.actions
        × (report.applied_action_count ≡ 0)
        × (report.status ≡ (if is_empty report.actions then "clean" else "planned"))
  unfolding fts_report maintain maintain_listed maintain_planned plan_maintenance_at with_status
      maintenance_status
  maintain_dry_run now context request instant id s c d =
      let events = order_by_created (filter (is_current true) s.memories) in
      let plan = plan_maintenance_at env events request instant id now in
      let planned = actions-IsPlanned instant (filter (is_candidate request) events) in
      let drift = no_drift env s false c in
      (
        with_status (record plan { fts = fts_report s false }),
        rw (listed true s c) (
            rw (dry request.dry_run request.apply_expired d) (
              rw (dry request.dry_run request.apply_secret_redactions d)
                (rw (dry request.dry_run request.repair_fts d) refl))),
        planned,
        refl,
        rw (drift.0, drift.1) (rw (any-planned _ planned) (status_of _)),
      )
    where
      text : Bool → String
      text b = if b then "clean" else "planned"

      status_of :
          (as' : List MaintenanceAction) → text (not (not (is_empty as'))) ≡ text (is_empty as')
      status_of as' = ap text (ground arith)
