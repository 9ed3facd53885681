-- ===== src/Portability.antt =====
-- crates/tree-ring-memory-core/src/import_export.rs: what an import does to each decoded event.
pub mod Import
pub mod Export
use tree_ring_memory.Prelude.{
  String, not, ◌&&◌, List, [], ◌∷◌, ◌==◌, if◌then◌else◌, ◌>>=◌, ◌>>◌, Result, ok,
}
use tree_ring_memory.Event.{MemoryEvent}
use tree_ring_memory.Event.Validate.{validate}
use tree_ring_memory.Externals.{Externals}
use tree_ring_memory.Legacy.{normalize_identity}
use tree_ring_memory.Sensitivity.{default_guard, detect_memory_event_sensitivity}

module _ (env : Externals) where
  -- the sensitivity that an import writes
  unfoldable pub reclassify : String → MemoryEvent → MemoryEvent
  reclassify detected e =
      if e.sensitivity == "normal" && not (detected == "normal")
      then record e { sensitivity = detected }
      else e

  unfoldable pub normalize_import_event : MemoryEvent → Result MemoryEvent
  normalize_import_event e = do
    (named, _) ← normalize_identity env e
    detected ← detect_memory_event_sensitivity env default_guard named
    let classified = reclassify detected named
    validate classified
    ok classified

  unfoldable pub normalize_import_events : List MemoryEvent → Result (List MemoryEvent)
  normalize_import_events [] = ok []
  normalize_import_events (e ∷ es) = do
    e' ← normalize_import_event e
    es' ← normalize_import_events es
    ok (e' ∷ es')
