-- ===== src/Api/Export.antt =====
-- lib.rs: `export_jsonl`. The time of `now_iso` is an argument.
pub mod Contents
use tree_ring_memory.Prelude.{
  ℕ, String, Bool, ◌||◌, List, length, filter, ◌==◌, Result, ok, ◌>>=◌, ◌>>◌,
}
use tree_ring_memory.Event.{MemoryEvent}
use tree_ring_memory.Externals.{Externals}
use tree_ring_memory.Store.{Store}
use tree_ring_memory.Portability.Export.{SerdeJson, encode_jsonl}
use tree_ring_memory.Api.Maintain.{list_all}

pub record ExportReport : Type 0 where
  pub memory_count : ℕ
  pub sensitive_included : Bool
  pub superseded_included : Bool

-- the filter of `export_jsonl`
unfoldable pub may_leave : Bool → MemoryEvent → Bool
may_leave include_sensitive e = include_sensitive || e.sensitivity == "normal"

module _ (env : Externals) (serde : SerdeJson) (now : String) where
  unfoldable pub export_events : Bool → Bool → List MemoryEvent → Result (String × ExportReport)
  unfolding encode_jsonl
  export_events include_sensitive include_superseded events = do
    jsonl ← encode_jsonl serde now events include_sensitive
    ok (
      jsonl,
      record {
        memory_count = length events;
        sensitive_included = include_sensitive;
        superseded_included = include_superseded;
      },
    )

  unfoldable pub export_jsonl : Bool → Bool → Store → Result (String × ExportReport)
  unfolding export_events may_leave
  export_jsonl include_sensitive include_superseded s = do
    events ← list_all env include_superseded s
    export_events include_sensitive include_superseded (filter (may_leave include_sensitive) events)
