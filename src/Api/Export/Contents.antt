-- ===== src/Api/Export/Contents.antt =====
-- What an export holds, and what it cannot depend on.
use tree_ring_memory.Prelude.{
  String, Bool, false, List, [], ◌∷◌, length, filter, ◌==◌, ok, ◌≡◌, refl, sym, ap, ◌∙◌, All,
}
use Prim.Native.String.{◌++◌ as append}
use tree_ring_memory.Event.{MemoryEvent}
use tree_ring_memory.Event.Validate.{validate}
use tree_ring_memory.Externals.{Externals}
use tree_ring_memory.Store.{Store}
use tree_ring_memory.Portability.Export.{
  SerdeJson, ExportHeader, MemoryEventEnvelope, encode_jsonl, push_envelopes, validate_each,
  export_header, envelope,
}
use tree_ring_memory.Api.Export.{may_leave, export_events, export_jsonl}
use tree_ring_memory.Api.Maintain.{is_current, order_by_created}
use tree_ring_memory.Api.Maintain.Ordered.{filter-swap, filter-order, length-order}
use tree_ring_memory.Api.Maintain.Effects.{All-filter, listed}
use tree_ring_memory.Api.Invariant.Steps.{IsConsistent}
use tree_ring_memory.Api.Invariant.Rebuilt.{All-order, rows_valid}

module _ (env : Externals) (serde : SerdeJson) (now : String) where
  -- On consistent tables an export is of the rows that may leave, in the order of their times.
  export-events :
      (include_sensitive include_superseded : Bool) (s : Store)
      → IsConsistent env s
      → export_jsonl env serde now include_sensitive include_superseded s
        ≡ export_events env serde now include_sensitive include_superseded (
            order_by_created (
              filter
                (is_current include_superseded)
                (filter (may_leave include_sensitive) s.memories)))
  unfolding export_jsonl
  export-events include_sensitive include_superseded s c =
      let rows = filter (is_current include_superseded) s.memories in
      rw (listed env include_superseded s c) (
        ap (export_events env serde now include_sensitive include_superseded) (
          filter-order (may_leave include_sensitive) rows
          ∙ ap order_by_created (
              filter-swap (may_leave include_sensitive) (is_current include_superseded)
                s.memories)))

  -- An export without sensitive memories depends on no memory whose sensitivity is not normal: on
  -- any two consistent stores that have the same normal rows it gives the same result, whatever else
  -- they hold.
  pub export_private :
      (include_superseded : Bool) (s t : Store)
      → IsConsistent env s
      → IsConsistent env t
      → filter (λ (e : MemoryEvent). e.sensitivity == "normal") s.memories
        ≡ filter (λ (e : MemoryEvent). e.sensitivity == "normal") t.memories
      → export_jsonl env serde now false include_superseded s
        ≡ export_jsonl env serde now false include_superseded t
  unfolding may_leave
  export_private include_superseded s t c d same =
      export-events false include_superseded s c
      ∙ rw same (sym (export-events false include_superseded t d))

  each-valid :
      (es : List MemoryEvent)
      → All (λ (e : MemoryEvent). validate e ≡ ok tt) es
      → validate_each es ≡ ok tt
  unfolding validate_each
  each-valid [] h = refl
  each-valid (e ∷ es) h = rw h.0 (each-valid es h.1)

  pushed :
      ((m : MemoryEventEnvelope) → (text : String) × (serde.envelope_text m ≡ ok text))
      → (output : String) (es : List MemoryEvent)
      → (text : String) × (push_envelopes serde output es ≡ ok text)
  unfolding push_envelopes
  pushed envelopes output [] = (output, refl)
  pushed envelopes output (e ∷ es) =
      let (line, printed) = envelopes (envelope e) in
      rw printed (pushed envelopes (append output (append line "\n")) es)

  encoded :
      ((h : ExportHeader) → (text : String) × (serde.header_text h ≡ ok text))
      → ((m : MemoryEventEnvelope) → (text : String) × (serde.envelope_text m ≡ ok text))
      → (es : List MemoryEvent) (sensitive : Bool)
      → All (λ (e : MemoryEvent). validate e ≡ ok tt) es
      → (text : String) × (encode_jsonl serde now es sensitive ≡ ok text)
  unfolding encode_jsonl
  encoded headers envelopes es sensitive valid =
      let (header, printed) = headers (export_header now (length es) sensitive) in
      rw (each-valid es valid) (rw printed (pushed envelopes (append header "\n") es))

  -- An export of consistent tables succeeds whenever serde_json prints its header and the lines of
  -- its memories, and counts in the report the rows that may leave.
  pub export_complete :
      (include_sensitive include_superseded : Bool) (s : Store)
      → IsConsistent env s
      → ((h : ExportHeader) → (text : String) × (serde.header_text h ≡ ok text))
      → ((m : MemoryEventEnvelope) → (text : String) × (serde.envelope_text m ≡ ok text))
      → (text : String) × (export_jsonl env serde now include_sensitive include_superseded s
          ≡ ok (
            text,
            record {
              memory_count = length (
                  filter
                    (is_current include_superseded)
                    (filter (may_leave include_sensitive) s.memories));
              sensitive_included = include_sensitive;
              superseded_included = include_superseded;
            },
          ))
  export_complete include_sensitive include_superseded s c headers envelopes =
      let rows =
        filter (is_current include_superseded) (filter (may_leave include_sensitive) s.memories) in
      let (text, written) = encoded headers envelopes (order_by_created rows) include_sensitive (
        All-order _ rows (
          All-filter _ (is_current include_superseded) _
            (All-filter _ (may_leave include_sensitive) s.memories (rows_valid env s c)))) in
      (
        text,
        export-events include_sensitive include_superseded s c
            ∙ unfold export_events in rw written (rw (length-order rows) refl),
      )
