-- ===== src/Tests/Audits.antt =====
-- Runs of the audits.
use tree_ring_memory.Prelude.{◌≡◌, ◌↔◌, ◌⊎◌, true, [], ◌∷◌, ◌==◌, All}
use tree_ring_memory.Event.{MemoryEvent}
use tree_ring_memory.Audit.{audit_stale, audit_sensitive, audit_supersession}
use tree_ring_memory.Audit.Links.{audit_supersession-eq-nil_iff, IsLinked}
use tree_ring_memory.Audit.Privacy.{
  audit_stale-eq-nil_iff, IsContained, audit_sensitive-eq-nil_iff, IsFresh,
}
use tree_ring_memory.Tests.Data.{note, env}

-- A memory that supersedes `note`, which does not point back.
abbrev newer : MemoryEvent
newer = record note { id = "mem_2"; supersedes = "mem_1" ∷ [] }

audit_supersession-eq-nil_iff_example :
    (audit_supersession (note ∷ newer ∷ []) ≡ [])
    ↔ All (IsLinked (note ∷ newer ∷ [])) (note ∷ newer ∷ [])
audit_supersession-eq-nil_iff_example = audit_supersession-eq-nil_iff (note ∷ newer ∷ [])

audit_sensitive-eq-nil_iff_example :
    (audit_sensitive (note ∷ record note { sensitivity = "private" } ∷ []) ≡ [])
    ↔ All
        (λ (e : MemoryEvent). ((e.sensitivity == "normal") ≡ true) ⊎ IsContained e)
        (note ∷ record note { sensitivity = "private" } ∷ [])
audit_sensitive-eq-nil_iff_example =
    audit_sensitive-eq-nil_iff (note ∷ record note { sensitivity = "private" } ∷ [])

audit_stale-eq-nil_iff_example :
    (audit_stale env 4 (note ∷ []) ≡ []) ↔ All (IsFresh env 4) (note ∷ [])
audit_stale-eq-nil_iff_example = audit_stale-eq-nil_iff env 4 (note ∷ [])
