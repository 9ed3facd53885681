-- ===== src/Portability/Export.antt =====
-- crates/tree-ring-memory-core/src/import_export.rs: the JSON lines of an export. The crate
-- serde_json, which prints a header and an envelope, is a record of functions.
use tree_ring_memory.Prelude.{ℕ, String, Bool, List, [], ◌∷◌, length, Result, ok, ◌>>=◌, ◌>>◌}
use Prim.Native.String.{◌++◌ as append}
use tree_ring_memory.Event.{MemoryEvent}
use tree_ring_memory.Event.Validate.{validate}

pub record ExportHeader : Type 0 where
  pub record_type : String
  pub schema_version : ℕ
  pub plugin_version : String
  pub created_at : String
  pub memory_count : ℕ
  pub sensitive_included : Bool

pub record MemoryEventEnvelope : Type 0 where
  pub record_type : String
  pub memory : MemoryEvent

-- `serde_json::to_string(value)?` at the two types
pub record SerdeJson : Type 0 where
  pub header_text : ExportHeader → Result String
  pub envelope_text : MemoryEventEnvelope → Result String

-- the loop that validates
unfoldable pub validate_each : List MemoryEvent → Result (Unit {0})
validate_each [] = ok tt
validate_each (e ∷ es) = validate e >> validate_each es

unfoldable pub export_header : String → ℕ → Bool → ExportHeader
export_header now count sensitive_included = record {
  record_type = "tree_ring_memory_export";
  schema_version = 1;
  plugin_version = "0.15.13";
  created_at = now;
  memory_count = count;
  sensitive_included = sensitive_included;
}

unfoldable pub envelope : MemoryEvent → MemoryEventEnvelope
envelope e = record { record_type = "memory_event"; memory = e }

module _ (serde : SerdeJson) where
  -- the loop that prints, from the output so far
  unfoldable pub push_envelopes : String → List MemoryEvent → Result String
  unfolding envelope
  push_envelopes output [] = ok output
  push_envelopes output (e ∷ es) = do
    text ← serde.envelope_text (envelope e)
    push_envelopes (append output (append text "\n")) es

  unfoldable pub encode_jsonl : String → List MemoryEvent → Bool → Result String
  unfolding validate_each export_header push_envelopes
  encode_jsonl now events sensitive_included = do
    _ ← validate_each events
    header ← serde.header_text (export_header now (length events) sensitive_included)
    push_envelopes (append header "\n") events
