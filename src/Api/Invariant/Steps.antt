-- ===== src/Api/Invariant/Steps.antt =====
-- The steps inside a transaction keep the invariant.
use tree_ring_memory.Prelude.{
  String, ◌≡◌, subst, inl, inr, false, not, ◌&&◌, some, List, arith, ◌==◌, Bool-cases, contains,
  contains-filter, ok,
}
use tree_ring_memory.Event.{MemoryEvent}
use tree_ring_memory.Event.Validate.{validate}
use tree_ring_memory.Externals.{Externals}
use tree_ring_memory.Sensitivity.Detect.{holds_secret}
use tree_ring_memory.Store.{fts_row, Store, find_memory, upsert, delete_rows}
use tree_ring_memory.Store.Tables.{
  Unique, Synced, find-upsert, find-delete, find-id, Unique-upsert, Unique-delete, Synced-write,
  Synced-delete,
}
use tree_ring_memory.Store.Write.{put_in_transaction, is_sanitized_redaction, delete_in_transaction}
use tree_ring_memory.Store.Write.Inversion.{put-eq-ok}
use tree_ring_memory.Event.Validate.Laws.{validate_iff}
use tree_ring_memory.Store.Write.{reread_event}
use tree_ring_memory.Sensitivity.Detect.{public_texts}

module _ (env : Externals) where
  -- A row that may stand in the tables: it passes `validate`, none of its texts looks like a
  -- secret, and if its id is tombstoned it holds nothing that redaction removes.
  pub record IsStorable (tombstones : List String) (e : MemoryEvent) : Type 0 where
    pub valid : validate e ≡ ok tt
    pub clean : holds_secret env e ≡ false
    pub sealed : (contains tombstones e.id && not (is_sanitized_redaction e)) ≡ false

  -- The ids are unique, the search index matches the rows, and every row may stand there.
  pub record IsConsistent (s : Store) : Type 0 where
    pub unique : Unique s.memories
    pub synced : Synced s.memories s.fts
    pub rows :
        (id : String) (e : MemoryEvent)
        → find_memory id s.memories ≡ some e
        → IsStorable s.tombstones e

  pub reread_valid : (e : MemoryEvent) → validate e ≡ ok tt → validate (reread_event env e) ≡ ok tt
  reread_valid e h =
      let v = (validate_iff e).0 h in
      (validate_iff (reread_event env e)).1 (record {
        summary = v.summary;
        event_type = v.event_type;
        scope = v.scope;
        project = v.project;
        agent_profile = v.agent_profile;
        workflow_id = v.workflow_id;
        session_id = v.session_id;
        operation_id = v.operation_id;
        agent_partition = v.agent_partition;
        workflow_partition = v.workflow_partition;
        session_partition = v.session_partition;
        ring = v.ring;
        sensitivity = v.sensitivity;
        retention = v.retention;
        salience = env.reread_in_unit e.salience v.salience;
        confidence = env.reread_in_unit e.confidence v.confidence;
      })

  -- An event whose scores have been printed and read back may stand where the event may.
  pub reread-IsStorable :
      (tombstones : List String) (e : MemoryEvent)
      → IsStorable tombstones e
      → IsStorable tombstones (reread_event env e)
  unfolding is_sanitized_redaction holds_secret public_texts
  reread-IsStorable tombstones e r = record {
    valid = reread_valid e r.valid;
    clean = r.clean;
    sealed = r.sealed;
  }

  pub put-rows :
      (s : Store) (e : MemoryEvent)
      → IsConsistent s
      → IsStorable s.tombstones e
      → (id : String) (m : MemoryEvent) → find_memory id (upsert e s.memories) ≡ some m
      → IsStorable s.tombstones m
  put-rows s e c new id m h = elim (Bool-cases (e.id == id)) [
    | inl p ↦
        let same : e ≡ m = ground (arith, find-upsert e id s.memories c.unique) in
        subst (IsStorable s.tombstones) same new
    | inr p ↦ c.rows id m (rw (find-upsert e id s.memories c.unique, p) at h)
  ]

  pub put-IsConsistent :
      (s : Store) (e : MemoryEvent) {s' : Store}
      → IsConsistent s
      → put_in_transaction env s e ≡ ok s'
      → IsConsistent s'
  unfolding fts_row
  put-IsConsistent s e {s'} c h =
      let w = put-eq-ok env s e h in
      record {
        unique = rw w.memories (Unique-upsert (reread_event env e) s.memories c.unique);
        synced =
            rw w.memories
              (rw w.fts (Synced-write (reread_event env e) s.memories s.fts c.unique c.synced));
        rows = rw w.memories (
            rw w.tombstones (
              put-rows s (reread_event env e) c (
                reread-IsStorable s.tombstones e
                  (record { valid = w.valid; clean = w.clean; sealed = w.sealed }))));
      }

  delete-rows :
      (s : Store) (memory_id : String)
      → IsConsistent s
      → (id : String) (m : MemoryEvent) → find_memory id (delete_rows memory_id s.memories) ≡ some m
      → IsStorable (delete_in_transaction env s memory_id).0.tombstones m
  unfolding delete_in_transaction
  delete-rows s memory_id c id m h = elim (Bool-cases (memory_id == id)) [
    | inl p ↦ cc (rw (find-delete memory_id id s.memories, p) at h)
    | inr p ↦
        let old = rw (find-delete memory_id id s.memories, p) at h in
        let r = c.rows id m old in
        record {
          valid = r.valid;
          clean = r.clean;
          sealed =
              rw (contains-filter s.tombstones memory_id m.id) (
                rw (find-id id s.memories old) (rw p (rw (find-id id s.memories old) at r.sealed)));
        }
  ]

  pub delete-IsConsistent :
      (s : Store) (memory_id : String)
      → IsConsistent s
      → IsConsistent (delete_in_transaction env s memory_id).0
  unfolding delete_in_transaction
  delete-IsConsistent s memory_id c = record {
    unique = Unique-delete memory_id s.memories c.unique;
    synced = Synced-delete memory_id s.memories s.fts c.synced;
    rows = delete-rows s memory_id c;
  }
