-- ===== src/Api/Consolidate/Created.antt =====
-- What a call of `consolidate` that created summaries has found and left.
use tree_ring_memory.Prelude.{
  >>-eq-ok, ◌∷◌, ◌++◌, String, ◌≡◌, refl, sym, ap, ◌∙◌, subst, false, Bool, Option, none, some,
  List, [], map, ◌==◌, eq_refl, if◌then◌else◌, eqb, head?, Bool-cases, inl, inr, >>=-eq-ok,
  ok-injective, Result, ok,
}
use tree_ring_memory.Event.{MemoryEvent}
use tree_ring_memory.Externals.{Externals}
use tree_ring_memory.Store.{Store, ConsolidationRow}
use tree_ring_memory.Policy.{WriteContext, authorize_coordinator_action}
use tree_ring_memory.Consolidation.{ConsolidationRequest, period_text}
use tree_ring_memory.Consolidation.Plan.{ConsolidationReport}
use tree_ring_memory.Api.Batch.{put_all}
use tree_ring_memory.Api.Outcomes.{guarded-eq-ok}
use tree_ring_memory.Api.Invariant.Guarded.{OnlyAudit, action-OnlyAudit}
use tree_ring_memory.Api.Consolidate.{
  find_consolidation, outputs_of, created_report, unchanged_report, insert_consolidation_record,
  consolidation_row, supersede_pairs, forced_pairs, consolidate_body, consolidate_found,
  consolidate_planned,
}

-- The tables with the row of the report.
abbrev pub recorded : ConsolidationReport → Store → Store
recorded report s = record s { consolidations = s.consolidations ++ consolidation_row report ∷ [] }

insert-eq-ok :
    (report : ConsolidationReport) (s : Store) {s' : Store}
    → insert_consolidation_record report s ≡ ok s'
    → s' ≡ recorded report s
unfolding insert_consolidation_record
insert-eq-ok report s h = sym (ok-injective (>>-eq-ok _ _ h).1)

-- The plan, the tables that the outputs were written to, and the tables and the report at the end.
pub record IsCreated (env : Externals) (s s' : Store) (report plan : ConsolidationReport)
    : Type 0 where
  pub some_found : eqb plan.candidate_count 0 ≡ false
  pub absent :
      find_consolidation
        (period_text plan.period_type)
        plan.period_key
        plan.source_memory_ids
        s.consolidations
      ≡ none
  pub before : Store
  pub audited : OnlyAudit s before
  pub written : Store
  pub wrote : put_all env (outputs_of plan) before ≡ ok written
  pub after : s' ≡ recorded (created_report plan) written
  pub reported : report ≡ created_report plan

-- A test that fails.
pub if_false {ℓ} : {A : Type ℓ} (b : Bool) (x y : A) → b ≡ false → (if b then x else y) ≡ y
if_false b x y h = rw h refl

not_created :
    (r report : ConsolidationReport)
    → (r.status == "created") ≡ false
    → r ≡ report
    → report.status ≡ "created"
    → ⊥
not_created r report other same created = cc (
    sym other
    ∙ ap (λ (t : String). t == "created")
        (ap (λ (x : ConsolidationReport). x.status) same ∙ created)
    ∙ eq_refl "created")

module _ (env : Externals) (request : ConsolidationRequest) (now : String) (context : WriteContext)
    (s s' : Store) (report : ConsolidationReport) (unforced : request.force ≡ false)
    (created : report.status ≡ "created") where
  body-IsCreated :
      (plan : ConsolidationReport) (before : Store)
      → eqb plan.candidate_count 0 ≡ false
      → find_consolidation
          (period_text plan.period_type)
          plan.period_key
          plan.source_memory_ids
          s.consolidations
        ≡ none
      → OnlyAudit s before
      → consolidate_body env request plan before ≡ ok (s', report)
      → IsCreated env s s' report plan
  unfolding consolidate_body
  body-IsCreated plan before found absent audited h =
      let (pairs, read, rest) = >>=-eq-ok (forced_pairs env request plan before) _ h in
      let (w, wrote, rest') = >>=-eq-ok (put_all env (outputs_of plan) before) _ rest in
      let (v, moved, rest'') = >>=-eq-ok (supersede_pairs env pairs w) _ rest' in
      let (x, added, end) =
        >>=-eq-ok (insert_consolidation_record (created_report plan) v) _ rest'' in
      let no_pairs : pairs ≡ [] =
        ok-injective (sym read ∙ unfold forced_pairs in if_false request.force _ _ unforced) in
      let same : w ≡ v =
        ok-injective (
          subst (λ (ps : List (String × String)). supersede_pairs env ps w ≡ ok v) no_pairs
            moved) in
      record {
        some_found = found;
        absent = absent;
        before = before;
        audited = audited;
        written = w;
        wrote = wrote;
        after =
            sym (ap (λ (y : Store × ConsolidationReport). y.0) (ok-injective end))
            ∙ insert-eq-ok (created_report plan) v added
            ∙ ap (recorded (created_report plan)) (sym same);
        reported = sym (ap (λ (x : Store × ConsolidationReport). x.1) (ok-injective end));
      }

  found-IsCreated :
      (plan : ConsolidationReport) (o : Option ConsolidationRow)
      → eqb plan.candidate_count 0 ≡ false
      → (o ≡ none
          → find_consolidation
              (period_text plan.period_type)
              plan.period_key
              plan.source_memory_ids
              s.consolidations
            ≡ none)
      → consolidate_found env now context request plan s o ≡ (s', ok report)
      → IsCreated env s s' report plan
  unfolding consolidate_found
  found-IsCreated plan (some stored) found absent h = absurd (
      not_created (unchanged_report stored plan) report (unfold unchanged_report in refl)
        (ok-injective (ap (λ (x : Store × Result ConsolidationReport). x.1) h)) created)
  found-IsCreated plan none found absent h =
      let auth =
        authorize_coordinator_action env now context "consolidate"
          (head? (map (λ (e : MemoryEvent). e.id) (outputs_of plan))) s in
      body-IsCreated plan auth.1 found (absent refl)
        (action-OnlyAudit env now context "consolidate" _ s)
        (guarded-eq-ok s auth (consolidate_body env request plan) h)

  pub planned-IsCreated :
      (plan : ConsolidationReport)
      → (plan.status == "created") ≡ false
      → consolidate_planned env now context request s (ok plan) ≡ (s', ok report)
      → IsCreated env s s' report plan
  unfolding consolidate_planned
  planned-IsCreated plan other h = elim (Bool-cases (eqb plan.candidate_count 0)) [
    | inl none_found ↦ absurd (
        not_created plan report other
          (ok-injective (ap (λ (x : Store × Result ConsolidationReport). x.1) (rw none_found at h)))
          created)
    | inr found ↦
        found-IsCreated plan _ found (λ e. sym (if_false request.force _ _ unforced) ∙ e)
          (rw found at h)
  ]
