-- ===== src/Tests/Exports.antt =====
-- Runs of an export.
use tree_ring_memory.Prelude.{
  String, ◌≡◌, refl, false, true, [], ◌∷◌, some, ok, length, filter, ◌==◌,
}
use tree_ring_memory.Event.{MemoryEvent}
use tree_ring_memory.Store.{Store}
use tree_ring_memory.Portability.Export.{
  SerdeJson, push_envelopes, encode_jsonl, validate_each, export_header, envelope,
}
use tree_ring_memory.Api.{put}
use tree_ring_memory.Api.Maintain.{is_current}
use tree_ring_memory.Api.Export.{export_jsonl, export_events, may_leave}
use tree_ring_memory.Api.Export.Contents.{export_private, export_complete}
use tree_ring_memory.Api.History.{migrated, call_put, history-IsConsistent}
use tree_ring_memory.Api.Invariant.Steps.{IsConsistent}
use tree_ring_memory.Tests.Data.{note, env, worker}
use tree_ring_memory.Tests.Program.{program}

abbrev serde : SerdeJson
serde = record { header_text = λ h. ok "header"; envelope_text = λ m. ok (m.memory.id) }

abbrev private_note : MemoryEvent
private_note = record note { id = "mem_9"; operation_id = some "op_9"; sensitivity = "private" }

abbrev public : Store
public = (put env "t1" worker note (migrated "t0")).0

abbrev mixed : Store
mixed = (put env "t2" worker private_note public).0

public-IsConsistent : IsConsistent env public
unfolding program
public-IsConsistent = history-IsConsistent env "t0" (call_put "t1" worker note ∷ [])

mixed-IsConsistent : IsConsistent env mixed
unfolding program
mixed-IsConsistent =
    history-IsConsistent env "t0"
      (call_put "t1" worker note ∷ call_put "t2" worker private_note ∷ [])

mixed_rows : length mixed.memories ≡ 2
unfolding program
mixed_rows = refl

same_normal :
    filter (λ (e : MemoryEvent). e.sensitivity == "normal") mixed.memories
    ≡ filter (λ (e : MemoryEvent). e.sensitivity == "normal") public.memories
unfolding program
same_normal = refl

exported :
    export_jsonl env serde "t3" false false mixed
    ≡ ok (
      "header\nmem_1\n",
      record { memory_count = 1; sensitive_included = false; superseded_included = false },
    )
unfolding program export_jsonl export_events may_leave encode_jsonl push_envelopes validate_each
    export_header envelope
exported = refl

export_private_example :
    export_jsonl env serde "t3" false false mixed ≡ export_jsonl env serde "t3" false false public
export_private_example =
    export_private env serde "t3" false mixed public mixed-IsConsistent public-IsConsistent
      same_normal

export_complete_example :
    (text : String) × (export_jsonl env serde "t3" true false mixed
      ≡ ok (
        text,
        record {
          memory_count =
              length (filter (is_current false) (filter (may_leave true) mixed.memories));
          sensitive_included = true;
          superseded_included = false;
        },
      ))
export_complete_example =
    export_complete env serde "t3" true false mixed mixed-IsConsistent (λ h. ("header", refl))
      (λ m. (m.memory.id, refl))
