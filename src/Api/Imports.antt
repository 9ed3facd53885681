-- ===== src/Api/Imports.antt =====
-- What the plan of an import counts and writes.
use tree_ring_memory.Prelude.{
  ◌+◌, String, ◌≡◌, refl, ap, subst, inl, inr, ◌⊎◌, Bool, true, false, ◌||◌, some, List, [], ◌∷◌,
  ◌==◌, eq_iff, eq_refl, arith, Bool-cases, length, All, All-map, Any, contains, filter,
}
use tree_ring_memory.Event.{MemoryEvent}
use tree_ring_memory.Store.{Store, rows_of, find_memory, exists_memory}
use tree_ring_memory.Policy.Decisions.{Distinct}
use tree_ring_memory.Api.Batch.{plan_import, ImportPlan}

-- The writes are some of the events, in the same order.
abbrev pub IsPart : List MemoryEvent → List MemoryEvent → Type 0
IsPart [] es = Unit
IsPart (w ∷ ws) [] = ⊥
IsPart (w ∷ ws) (e ∷ es) = ((w ≡ e) × IsPart ws es) ⊎ IsPart (w ∷ ws) es

-- The id of the event has a row, was planned before, or is that of a write.
abbrev pub IsCovered : Store → List String → List MemoryEvent → MemoryEvent → Type 0
IsCovered s planned ws e =
    (exists_memory e.id s.memories ≡ true)
    ⊎ (contains planned e.id ≡ true)
    ⊎ Any (λ (w : MemoryEvent). w.id ≡ e.id) ws

-- Of the events, the first of each id that is new.
pub record IsFirstOfNew (s : Store) (planned : List String) (es ws : List MemoryEvent)
    : Type 0 where
  pub part : IsPart ws es
  pub new : All (λ (w : MemoryEvent). exists_memory w.id s.memories ≡ false) ws
  pub distinct : Distinct planned ws
  pub first : All (λ (w : MemoryEvent). find_memory w.id es ≡ some w) ws
  pub covered : All (IsCovered s planned ws) es

-- With `replace_existing` nothing is skipped and all events are written; without it nothing is
-- replaced, and what is written is the first event of each new id.
abbrev pub KeepsPolicy : Bool → Store → List String → List MemoryEvent → ImportPlan → Type 0
KeepsPolicy true s planned events plan =
    (plan.skipped_duplicate_count ≡ 0) × (plan.planned_writes ≡ events)
KeepsPolicy false s planned events plan =
    (plan.replaced_count ≡ 0) × IsFirstOfNew s planned events plan.planned_writes

-- What the plan of an import promises, for the ids planned before.
pub record IsImportPlan (replace_existing : Bool) (s : Store) (planned : List String)
    (events : List MemoryEvent) (plan : ImportPlan) : Type 0 where
  pub total :
      plan.inserted_count + plan.replaced_count + plan.skipped_duplicate_count ≡ length events
  pub writes : length plan.planned_writes ≡ plan.inserted_count + plan.replaced_count
  pub kept : KeepsPolicy replace_existing s planned events plan

skipped-IsPart : (e : MemoryEvent) (ws es : List MemoryEvent) → IsPart ws es → IsPart ws (e ∷ es)
skipped-IsPart e [] es h = tt
skipped-IsPart e (w ∷ ws) es h = inr h

-- The events of other ids are found where one is put in front.
first-cons :
    (e : MemoryEvent) (es ws : List MemoryEvent)
    → All (λ (w : MemoryEvent). e.id == w.id ≡ false) ws
    → All (λ (w : MemoryEvent). find_memory w.id es ≡ some w) ws
    → All (λ (w : MemoryEvent). find_memory w.id (e ∷ es) ≡ some w) ws
unfolding find_memory rows_of filter
first-cons e es [] other found = tt
first-cons e es (w ∷ ws) other found = (rw (other.0) (found.0), first-cons e es ws other.1 found.1)

-- A write has no id that was planned before.
unplanned-Distinct :
    (planned : List String) (ws : List MemoryEvent)
    → Distinct planned ws
    → All (λ (w : MemoryEvent). contains planned w.id ≡ false) ws
unfolding contains
unplanned-Distinct planned [] d = tt
unplanned-Distinct planned (w ∷ ws) d =
    (d.0, All-map ws (λ v h. ground (arith, h)) (unplanned-Distinct (w.id ∷ planned) ws d.1))

more-IsCovered :
    (s : Store) (planned : List String) (e : MemoryEvent) (ws es : List MemoryEvent)
    → All (IsCovered s (e.id ∷ planned) ws) es
    → All (IsCovered s planned (e ∷ ws)) es
unfolding contains
more-IsCovered s planned e ws es h = All-map es (λ x c. one x c) h
  where
    seen :
        (x : MemoryEvent)
        → (e.id == x.id || contains planned x.id) ≡ true
        → IsCovered s planned (e ∷ ws) x
    seen x h = elim (Bool-cases (e.id == x.id)) [
      | inl same ↦ inr (inr (inl ((eq_iff e.id x.id).0 same)))
      | inr other ↦ inr (inl (rw other at h))
    ]

    one : (x : MemoryEvent) → IsCovered s (e.id ∷ planned) ws x → IsCovered s planned (e ∷ ws) x
    one x (inl stored) = inl stored
    one x (inr (inl planned_before)) = seen x planned_before
    one x (inr (inr written)) = inr (inr (inr written))

old-IsCovered :
    (s : Store) (planned : List String) (ws : List MemoryEvent) (e : MemoryEvent)
    → (exists_memory e.id s.memories || contains planned e.id) ≡ true
    → IsCovered s planned ws e
old-IsCovered s planned ws e h = elim (Bool-cases (exists_memory e.id s.memories)) [
  | inl stored ↦ inl stored
  | inr gone ↦ inr (inl (rw gone at h))
]

-- An event of a known id is none of the writes.
other_ids :
    (s : Store) (planned : List String) (e : MemoryEvent) (ws : List MemoryEvent)
    → (exists_memory e.id s.memories || contains planned e.id) ≡ true
    → All (λ (w : MemoryEvent). exists_memory w.id s.memories ≡ false) ws
    → All (λ (w : MemoryEvent). contains planned w.id ≡ false) ws
    → All (λ (w : MemoryEvent). e.id == w.id ≡ false) ws
other_ids s planned e [] known new unplanned = tt
other_ids s planned e (w ∷ ws) known new unplanned =
    (apart, other_ids s planned e ws known new.1 unplanned.1)
  where
    apart : e.id == w.id ≡ false
    apart = elim (Bool-cases (e.id == w.id)) [
      | inr other ↦ other
      | inl same ↦
          let known' : (exists_memory w.id s.memories || contains planned w.id) ≡ true =
            subst (λ (id : String). (exists_memory id s.memories || contains planned id) ≡ true)
              ((eq_iff e.id w.id).0 same) known in
          absurd (cc (rw (new.0, unplanned.0) at known'))
    ]

module _ (s : Store) (planned : List String) (e : MemoryEvent) (es : List MemoryEvent) where
  skipped :
      (ws : List MemoryEvent)
      → (exists_memory e.id s.memories || contains planned e.id) ≡ true
      → IsFirstOfNew s planned es ws
      → IsFirstOfNew s planned (e ∷ es) ws
  skipped ws known f = record {
    part = skipped-IsPart e ws es f.part;
    new = f.new;
    distinct = f.distinct;
    first =
        first-cons e es ws
          (other_ids s planned e ws known f.new (unplanned-Distinct planned ws f.distinct)) f.first;
    covered = (old-IsCovered s planned ws e known, f.covered);
  }

  taken :
      (ws : List MemoryEvent)
      → (exists_memory e.id s.memories || contains planned e.id) ≡ false
      → IsFirstOfNew s (e.id ∷ planned) es ws
      → IsFirstOfNew s planned (e ∷ es) (e ∷ ws)
  unfolding find_memory rows_of filter contains
  taken ws new f = record {
    part = inl (refl, f.part);
    new = (ground arith, f.new);
    distinct = (ground arith, f.distinct);
    first = (
      rw (eq_refl e.id) refl,
      first-cons e es ws
          (All-map ws (λ w h. ground arith) (unplanned-Distinct (e.id ∷ planned) ws f.distinct))
          f.first,
    );
    covered = (inr (inr (inl refl)), more-IsCovered s planned e ws es f.covered);
  }

-- The plan of an import counts each event once, as inserted, replaced or skipped, and plans a
-- write for each that is not skipped. With `replace_existing` nothing is skipped and the events are
-- written as they come. Without it nothing is replaced, and the planned writes are, in the order of
-- the events, the first event of each id that the store does not have and that was not planned
-- before: none is missing and no id is written twice.
pub plan_import-IsImportPlan :
    (replace_existing : Bool) (s : Store) (planned : List String) (events : List MemoryEvent)
    → IsImportPlan replace_existing s planned events (plan_import replace_existing s planned events)
unfolding plan_import
plan_import-IsImportPlan true s planned [] = record {
  total = refl;
  writes = refl;
  kept = (refl, refl);
}
plan_import-IsImportPlan false s planned [] = record {
  total = refl;
  writes = refl;
  kept = (refl, record { part = tt; new = tt; distinct = tt; first = tt; covered = tt });
}
plan_import-IsImportPlan true s planned (e ∷ es) =
    let rest = plan_import-IsImportPlan true s (e.id ∷ planned) es in
    elim (Bool-cases (exists_memory e.id s.memories || contains planned e.id)) [
      | inl old ↦ rw old (record {
        total = omega (arith, rest.total);
        writes = omega (arith, rest.writes);
        kept = (rest.kept.0, ap (◌∷◌ e) rest.kept.1);
      })
      | inr new ↦ rw new (record {
        total = omega (arith, rest.total);
        writes = omega (arith, rest.writes);
        kept = (rest.kept.0, ap (◌∷◌ e) rest.kept.1);
      })
    ]
plan_import-IsImportPlan false s planned (e ∷ es) =
    elim (Bool-cases (exists_memory e.id s.memories || contains planned e.id)) [
      | inl old ↦
          let rest = plan_import-IsImportPlan false s planned es in
          let kept = skipped s planned e es _ old rest.kept.1 in
          rw old (record {
            total = omega (arith, rest.total);
            writes = rest.writes;
            kept = (rest.kept.0, kept);
          })
      | inr new ↦
          let rest = plan_import-IsImportPlan false s (e.id ∷ planned) es in
          let kept = taken s planned e es _ new rest.kept.1 in
          rw new (record {
            total = omega (arith, rest.total);
            writes = omega (arith, rest.writes);
            kept = (rest.kept.0, kept);
          })
    ]
