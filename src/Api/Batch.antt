-- ===== src/Api/Batch.antt =====
-- lib.rs: the operations on many events: `put_many`, `put_dox_many`, `import_jsonl` after its
-- decoding, and `maintain`.
use tree_ring_memory.Prelude.{
  ℕ, ◌+◌, String, Bool, not, ◌&&◌, ◌||◌, Option, none, some, List, [], ◌∷◌, ◌==◌, if◌then◌else◌,
  is_some, option_eq, length, filter, contains, is_blank, ◌>>=◌, ◌>>◌, ensure, Result, validation,
  ok, err,
}
use tree_ring_memory.Event.{MemoryEvent, MemoryLink}
use tree_ring_memory.Externals.{Externals}
use tree_ring_memory.Store.{Store, exists_memory}
use tree_ring_memory.Store.Write.{
  prepare_memory_write, select_event, put_with_statements, put_in_transaction,
  supersede_in_transaction,
}
use tree_ring_memory.Policy.{WriteContext, authorize_coordinator_action, authorize_event_creates}
use tree_ring_memory.Portability.{normalize_import_events}
use tree_ring_memory.Api.{guarded}

unfoldable pub dox_roots : List MemoryLink → List MemoryLink
unfolding filter
dox_roots = filter (λ (l : MemoryLink). l.link_type == "dox-root")

unfoldable pub one_root : List MemoryLink → Result (Option String)
one_root [] = ok none
one_root (root ∷ []) =
    if is_blank root.target
    then err (
        validation
          "invalid DOX root provenance; expected one non-empty dox-root link; rebuild the source preview or reconcile legacy provenance")
    else ok (some root.target)
one_root (root ∷ next ∷ rest) = err (
    validation
      "invalid DOX root provenance; expected one non-empty dox-root link; rebuild the source preview or reconcile legacy provenance")

unfoldable pub dox_root_provenance : MemoryEvent → Result (Option String)
unfolding one_root dox_roots
dox_root_provenance e = one_root (dox_roots e.links)

unfoldable pub required_root : Option String → Result String
required_root none =
    err (validation "DOX batch requires one non-empty dox-root link; rebuild the source preview")
required_root (some root) = ok root

-- the last `match` of `validate_dox_source_update`
unfoldable pub accept_root : String → Bool → Option String → Result (Unit {0})
accept_root root allow_legacy_sources (some existing_root) = ensure (existing_root == root) (
    validation
      "DOX root provenance collides with an existing source; use a separate project store or explicitly reconcile source provenance")
accept_root root allow_legacy_sources none = ensure allow_legacy_sources (
    validation
      "legacy DOX memory has no root provenance in this shared or custom store; use the source project's local .tree-ring or explicitly reconcile legacy source provenance")

unfoldable pub same_source : MemoryEvent → MemoryEvent → Bool
same_source present e =
    option_eq present.project e.project
    && present.scope == e.scope
    && present.source.source_type == e.source.source_type
    && present.source.ref_ == e.source.ref_

unfoldable pub check_existing : MemoryEvent → String → Bool → Option MemoryEvent → Result (Unit {0})
check_existing e root allow_legacy_sources none = ok tt
check_existing e root allow_legacy_sources (some present) = do
  ensure (same_source present e) (
      validation
        "DOX source identity collides with an existing memory; use a separate project store or explicitly reconcile legacy source provenance")
  found ← dox_root_provenance present
  accept_root root allow_legacy_sources found

-- The counts and the writes that `import_jsonl` plans.
pub record ImportPlan : Type 0 where
  pub inserted_count : ℕ
  pub replaced_count : ℕ
  pub skipped_duplicate_count : ℕ
  pub planned_writes : List MemoryEvent

pub record ImportReport : Type 0 where
  pub valid_count : ℕ
  pub inserted_count : ℕ
  pub replaced_count : ℕ
  pub skipped_duplicate_count : ℕ
  pub dry_run : Bool

unfoldable pub plan_import : Bool → Store → List String → List MemoryEvent → ImportPlan
plan_import replace_existing s planned [] = record {
  inserted_count = 0;
  replaced_count = 0;
  skipped_duplicate_count = 0;
  planned_writes = [];
}
plan_import replace_existing s planned (e ∷ es) =
    let exists = exists_memory e.id s.memories || contains planned e.id in
    let rest =
      plan_import replace_existing s
        (if exists && not replace_existing then planned else e.id ∷ planned) es in
    if exists && not replace_existing
    then record rest { skipped_duplicate_count = rest.skipped_duplicate_count + 1 }
    else if exists
    then record rest {
      replaced_count = rest.replaced_count + 1;
      planned_writes = e ∷ rest.planned_writes;
    }
    else record rest {
      inserted_count = rest.inserted_count + 1;
      planned_writes = e ∷ rest.planned_writes;
    }

-- `planned_writes.first()…or_else(|| events.first()…)`
unfoldable pub first_id : List MemoryEvent → List MemoryEvent → Option String
first_id (e ∷ es) events = some e.id
first_id [] (e ∷ es) = some e.id
first_id [] [] = none

unfoldable pub import_report : ℕ → Bool → ImportPlan → ImportReport
import_report valid dry_run plan = record {
  valid_count = valid;
  inserted_count = plan.inserted_count;
  replaced_count = plan.replaced_count;
  skipped_duplicate_count = plan.skipped_duplicate_count;
  dry_run = dry_run;
}

abbrev pub empty_plan : ImportPlan
empty_plan = record {
  inserted_count = 0;
  replaced_count = 0;
  skipped_duplicate_count = 0;
  planned_writes = [];
}

module _ (env : Externals) where
  unfoldable pub validate_dox_source_update : Store → MemoryEvent → Bool → Result (Unit {0})
  validate_dox_source_update s e allow_legacy_sources = do
    ensure (e.scope == "dox" && e.source.source_type == "dox")
        (validation "DOX batch requires DOX-scoped events with DOX source provenance")
    found ← dox_root_provenance e
    root ← required_root found
    present ← select_event env e.id s
    check_existing e root allow_legacy_sources present

  unfoldable pub dox_check : Option Bool → Store → MemoryEvent → Result (Unit {0})
  dox_check none s e = ok tt
  dox_check (some allow_legacy_sources) s e = validate_dox_source_update s e allow_legacy_sources

  -- the loop of `put_many_with_dox_guard`
  unfoldable pub write_all : Option Bool → List MemoryEvent → Store → Result Store
  write_all guard [] s = ok s
  write_all guard (e ∷ es) s = do
    dox_check guard s e
    prepared ← prepare_memory_write env s e
    written ← put_with_statements env prepared e
    write_all guard es written

  -- the two loops of `import_jsonl` over the planned writes
  unfoldable pub put_all : List MemoryEvent → Store → Result Store
  put_all [] s = ok s
  put_all (e ∷ es) s = do s' ← put_in_transaction env s e; put_all es s'

  unfoldable pub supersede_ids : String → List String → Store → Result Store
  supersede_ids new_id [] s = ok s
  supersede_ids new_id (old_id ∷ ids) s = do
    (s', _) ← supersede_in_transaction env s old_id new_id
    supersede_ids new_id ids s'

  unfoldable pub supersede_all : List MemoryEvent → Store → Result Store
  supersede_all [] s = ok s
  supersede_all (e ∷ es) s = do s' ← supersede_ids e.id e.supersedes s; supersede_all es s'

  module _ (now : String) (context : WriteContext) where
    unfoldable pub write_body : Option Bool → List MemoryEvent → Store → Result (Store × Unit {0})
    write_body guard events s = do s' ← write_all guard events s; ok (s', tt)

    unfoldable pub put_many_with_dox_guard :
        List MemoryEvent → Option Bool → Store → Store × Result (Unit {0})
    put_many_with_dox_guard events guard s =
        guarded s
          (authorize_event_creates env now context
            (if is_some guard then "put_dox_many" else "put_many") events s)
          (write_body guard events)

    unfoldable pub import_body : ImportPlan → ImportReport → Store → Result (Store × ImportReport)
    import_body plan report s = do
      s' ← put_all plan.planned_writes s
      s'' ← supersede_all plan.planned_writes s'
      ok (s'', report)

    -- `import_jsonl` once the events are normalised
    unfoldable pub import_normalized :
        Bool → Bool → Store → Result (List MemoryEvent) → Store × Result ImportReport
    import_normalized dry_run replace_existing s (err error) = (s, err error)
    import_normalized dry_run replace_existing s (ok events) =
        let plan = plan_import replace_existing s [] events in
        if dry_run
        then (s, ok (import_report (length events) dry_run empty_plan))
        else guarded s
            (authorize_coordinator_action env now context "import_jsonl"
              (first_id plan.planned_writes events) s)
            (import_body plan (import_report (length events) dry_run plan))

    unfoldable pub import_events :
        List MemoryEvent → Bool → Bool → Store → Store × Result ImportReport
    unfolding import_normalized
    import_events decoded dry_run replace_existing s =
        import_normalized dry_run replace_existing s (normalize_import_events env decoded)
