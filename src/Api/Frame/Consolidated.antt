-- ===== src/Api/Frame/Consolidated.antt =====
-- `consolidate` satisfies a frame.
use tree_ring_memory.Prelude.{
  ℕ, String, ◌≡◌, subst, Option, none, some, List, [], ◌∷◌, eqb, Bool-cases, inl, inr, >>=-eq-ok,
  >>-eq-ok, ◌>>=◌, ok-injective, Result, ok, err, false, true, if◌then◌else◌,
}
use tree_ring_memory.Externals.{Externals}
use tree_ring_memory.Sensitivity.{default_guard, detect_text_sensitivity}
use tree_ring_memory.Store.{Store, ConsolidationRow}
use tree_ring_memory.Store.Write.{supersede_in_transaction}
use tree_ring_memory.Policy.{WriteContext}
use tree_ring_memory.Consolidation.{ConsolidationRequest}
use tree_ring_memory.Consolidation.Plan.{ConsolidationReport}
use tree_ring_memory.Consolidation.Plan.{consolidate_memories}
use tree_ring_memory.Api.Maintain.{list_all}
use tree_ring_memory.Api.Batch.{put_all}
use tree_ring_memory.Api.Consolidate.{
  created_report, outputs_of, supersede_pairs, forced_pairs, insert_consolidation_record,
  consolidate_body, request_texts, consolidate_found, consolidate_planned, consolidate_checked,
  consolidate,
}
use tree_ring_memory.Api.Invariant.Single.{first_eq}
use tree_ring_memory.Api.Frame.{IsFrame, action_frame, guarded_frame}
use tree_ring_memory.Api.Frame.Many.{puts_frame}

module _ (env : Externals) (R : Store → Store → Type 0) (f : IsFrame env R) where
  pairs_frame :
      (pairs : List (String × String)) (s : Store) {s' : Store}
      → supersede_pairs env pairs s ≡ ok s'
      → R s s'
  unfolding supersede_pairs
  pairs_frame [] s h = subst (R s) (ok-injective h) (f.same s)
  pairs_frame ((old_id, new_id) ∷ pairs) s {s'} h =
      let (r, moved, more) = >>=-eq-ok (supersede_in_transaction env s old_id new_id) _ h in
      f.chain s r.0 s' (f.supersede_step s r.0 old_id new_id r.1 moved) (pairs_frame pairs r.0 more)

  consolidate_body_frame :
      (request : ConsolidationRequest) (report : ConsolidationReport) (s : Store) {s' : Store}
      {report' : ConsolidationReport}
      → consolidate_body env request report s ≡ ok (s', report')
      → R s s'
  unfolding consolidate_body insert_consolidation_record
  consolidate_body_frame request report s h =
      let (pairs, read, rest) = >>=-eq-ok (forced_pairs env request report s) _ h in
      let (w, wrote, rest') = >>=-eq-ok (put_all env (outputs_of report) s) _ rest in
      let (v, moved, rest'') = >>=-eq-ok (supersede_pairs env pairs w) _ rest' in
      let (x, added, end) =
        >>=-eq-ok (insert_consolidation_record (created_report report) v) _ rest'' in
      let (free, row) = >>-eq-ok _ _ added in
      subst (R s) (first_eq end) (
        f.chain s w _ (puts_frame env R f (outputs_of report) s wrote) (
          f.chain w v _ (pairs_frame pairs w moved)
            (subst (R v) (ok-injective row) (f.record_step v _))))

  module _ (now : String) (context : WriteContext) where
    found_frame :
        (request : ConsolidationRequest) (report : ConsolidationReport) (s : Store)
        (o : Option ConsolidationRow)
        → R s (consolidate_found env now context request report s o).0
    unfolding consolidate_found
    found_frame request report s (some stored) = f.same s
    found_frame request report s none =
        guarded_frame env R f s _ (consolidate_body env request report)
          (action_frame env R f now context "consolidate" _ s)
          (λ s' a h. consolidate_body_frame request report _ h)

    planned_frame :
        (request : ConsolidationRequest) (s : Store) (plan : Result ConsolidationReport)
        → R s (consolidate_planned env now context request s plan).0
    unfolding consolidate_planned
    planned_frame request s (err error) = f.same s
    planned_frame request s (ok report) = elim (Bool-cases (eqb report.candidate_count 0)) [
      | inl none_found ↦ rw none_found (f.same s)
      | inr some_found ↦ rw some_found (found_frame request report s _)
    ]

    pub consolidate_frame :
        (made : ℕ → String × String) (id : String) (instant : ℕ) (request : ConsolidationRequest)
        (s : Store)
        → R s (consolidate env now context made id instant request s).0
    unfolding consolidate
    consolidate_frame made id instant request s =
        checked (detect_text_sensitivity env default_guard (request_texts request))
      where
        checked :
            (r : Result String)
            → R s (consolidate_checked env now context made id instant request s r).0
        checked (err error) = unfold consolidate_checked in f.same s
        checked (ok detected) =
            let plan : Result ConsolidationReport = list_all env false s >>= λ events.
            consolidate_memories env made id now instant events request in
            unfold consolidate_checked in
            (elim request.dry_run
              as (λ dry.
                R s
                  (if dry
                    then (s, plan)
                    else consolidate_planned env now context request s plan).0) [
                      | true ↦ f.same s
                      | false ↦ planned_frame request s plan
                    ])
