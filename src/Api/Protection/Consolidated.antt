-- ===== src/Api/Protection/Consolidated.antt =====
-- A consolidation by a caller without the capability changes nothing but the audit log.
use tree_ring_memory.Prelude.{
  ℕ, String, true, false, Option, none, some, eqb, Bool-cases, inl, inr, if◌then◌else◌, ◌>>=◌,
  Result, ok, err,
}
use tree_ring_memory.Externals.{Externals}
use tree_ring_memory.Sensitivity.{default_guard, detect_text_sensitivity}
use tree_ring_memory.Store.{Store, ConsolidationRow}
use tree_ring_memory.Policy.{WriteContext}
use tree_ring_memory.Consolidation.{ConsolidationRequest}
use tree_ring_memory.Consolidation.Plan.{ConsolidationReport, consolidate_memories}
use tree_ring_memory.Api.Maintain.{list_all}
use tree_ring_memory.Api.Consolidate.{
  request_texts, consolidate_body, consolidate_found, consolidate_planned, consolidate_checked,
  consolidate,
}
use tree_ring_memory.Api.Denials.{IsUnprivileged, action-IsDenial, denial-IsRefused}
use tree_ring_memory.Api.Invariant.Guarded.{OnlyAudit, OnlyAudit-refl}
use tree_ring_memory.Api.Protection.{IsKept, OnlyAudit-IsKept}

module _ (env : Externals) (now : String) (context : WriteContext) where
  found-OnlyAudit :
      (request : ConsolidationRequest) (report : ConsolidationReport) (s : Store)
      (o : Option ConsolidationRow)
      → IsUnprivileged env now context s
      → OnlyAudit s (consolidate_found env now context request report s o).0
  unfolding consolidate_found
  found-OnlyAudit request report s (some stored) u = OnlyAudit-refl s
  found-OnlyAudit request report s none u =
      (denial-IsRefused env now context "consolidate" s _ (consolidate_body env request report)
        (action-IsDenial env now context "consolidate" _ s u)).kept

  planned-OnlyAudit :
      (request : ConsolidationRequest) (s : Store) (plan : Result ConsolidationReport)
      → IsUnprivileged env now context s
      → OnlyAudit s (consolidate_planned env now context request s plan).0
  unfolding consolidate_planned
  planned-OnlyAudit request s (err error) u = OnlyAudit-refl s
  planned-OnlyAudit request s (ok report) u = elim (Bool-cases (eqb report.candidate_count 0)) [
    | inl none_found ↦ rw none_found (OnlyAudit-refl s)
    | inr some_found ↦ rw some_found (found-OnlyAudit request report s _ u)
  ]

  pub consolidate-IsKept :
      (made : ℕ → String × String) (id : String) (instant : ℕ) (request : ConsolidationRequest)
      (s : Store)
      → IsUnprivileged env now context s
      → IsKept s (consolidate env now context made id instant request s).0
  unfolding consolidate
  consolidate-IsKept made id instant request s u =
      OnlyAudit-IsKept (checked (detect_text_sensitivity env default_guard (request_texts request)))
    where
      checked :
          (r : Result String)
          → OnlyAudit s (consolidate_checked env now context made id instant request s r).0
      checked (err error) = unfold consolidate_checked in OnlyAudit-refl s
      checked (ok detected) =
          let plan : Result ConsolidationReport = list_all env false s >>= λ events.
          consolidate_memories env made id now instant events request in
          unfold consolidate_checked in
          (elim request.dry_run
            as (λ dry.
              OnlyAudit s
                (if dry then (s, plan) else consolidate_planned env now context request s plan).0) [
                  | true ↦ OnlyAudit-refl s
                  | false ↦ planned-OnlyAudit request s plan u
                ])
