-- ===== src/Lib.antt =====
-- Tree Ring Memory: the memory store of the repository, its events, checks, policy and operations.
--
-- The program keeps memories of agents in one SQLite database. The crate tree-ring-memory-core has
-- the data and the pure rules; the crate tree-ring-memory-sqlite has the database and the operations
-- that the command line and other hosts call. An operation first asks the policy whether it may
-- write, then runs its statements in one transaction; every write of an event passes the checks of
-- the core crate.
--
-- Which file models which part, with the names kept where the language allows:
--   Event, Event/*        crates/tree-ring-memory-core/src/models.rs: MemoryEvent, validate, redact;
--                         an f64 is exact, in units of 2^-1074
--   Sensitivity, /*       crates/tree-ring-memory-core/src/sensitivity.rs: inspect, the guard and its
--                         walk over every text of an event
--   Legacy, /Laws         crates/tree-ring-memory-core/src/import_export.rs:
--                         normalize_legacy_private_scope_identity (normalize_identity)
--   Portability, /Import  crates/tree-ring-memory-core/src/import_export.rs: normalize_import_event
--   Portability/Export    crates/tree-ring-memory-core/src/import_export.rs: encode_jsonl
--   Maintenance, /*       crates/tree-ring-memory-core/src/maintenance.rs: plan_maintenance_at
--   Consolidation, /*     crates/tree-ring-memory-core/src/consolidation.rs: consolidate_memories;
--                         which old output a new one replaces is in Consolidation/Replacement
--   Event/Score/Arithmetic  +, * and / of f64, rounded to nearest, for averages and scores
--   Recall                crates/tree-ring-memory-core/src/recall.rs: the queries and RecallScorer
--   Audit, Audit/*        crates/tree-ring-memory-core/src/audit.rs: the checks for stale, sensitive,
--                         doubtful and wrongly linked memories
--   Store, Store/*        crates/tree-ring-memory-sqlite/src/write.rs and the schema in lib.rs: the
--                         tables as lists of rows, the queries, the steps of a transaction
--   Policy, Policy/*      crates/tree-ring-memory-sqlite/src/policy.rs: who may write, the audit log
--   Api                   crates/tree-ring-memory-sqlite/src/lib.rs: put, put_idempotent, get,
--                         supersede, delete, redact, change_ring
--   Api/Admin             enable_coordinated_policy, rotate_coordinator_capability,
--                         disable_coordinated_policy
--   Api/Batch             put_many, put_dox_many, import_jsonl after its decoding
--   Api/Maintain          list_all, the search index report, maintain, and lifecycle.rs
--   Api/Export            export_jsonl
--   Api/Consolidate, /*   consolidate, its record and its replacement of earlier outputs
--   Api/Search            search_text_limited, the filtered searches, matches_filters
--   Api/Recall, /Results  MemoryRetriever: recall_with_options_until
--   Api/Recall/Session, /Shown  crates/tree-ring-memory-sqlite/src/session_recall.rs
--   Api/History           the tables of a new database and any sequence of operations on them
--   Api/Invariant/*       each operation keeps the invariant IsConsistent
--   Api/Frame, /*         relations that hold of each step hold of each operation: the audit log
--   Api/Protection, /*    what callers without the capability leave as it was
--   Api/(others)          what the operations promise: refusals, creations by workers, grants,
--                         reading back, redaction, idempotence, plans of an import
--   Externals             the crates regex, chrono, sha2, serde_json's numbers and exp, as a
--                         record of functions
--   Prelude, Tests        shared names; runs on small inputs
--
-- State is passed explicitly: an operation takes the tables and returns them with its result. A
-- transaction of rusqlite that is dropped without its commit rolls back, so one that fails returns
-- the tables from before it (settle), and what its body had written is not represented; a refused
-- one returns the tables with the audit row that it commits (guarded). SQLite serialises writing
-- transactions, so processes that share a database are a sequence of operations. The time of
-- now_iso, generated ids and random capabilities are arguments. Recursion is on the structure of
-- lists but for two cases: the digits of a number (a number has fewer digits than its value plus
-- one), and the scale at which 53 bits hold a quotient (one round for each of the 2047 exponents
-- of a double). A row is what its raw_json column decodes to. Encoding an event and decoding it
-- again gives the same event but for the two scores: serde_json, whose feature float_roundtrip the
-- program does not enable, may read a printed number back as a neighbouring double, so it is a
-- parameter (reread), of which only is taken that a value from 0 to 1 stays there, and a write
-- stores the event as it is read back (reread_event). The columns for the scores, which nothing
-- but one ORDER BY reads, are not kept apart from it. What serde_json prints in an export is a
-- parameter (SerdeJson).
--
-- SQLite's full text index is a parameter as well (SearchEngine): which rows match a query, with what
-- rank. Each check of a deadline and each reading of the clock is a value of a function of how many
-- there were before.
--
-- Not modelled: the retry of a locked database, the migration of databases of older versions, the
-- audit check for contradictions, the decoding of an import, the adapters for DOX and Revolve, and
-- the command line with its terminal interface, activation, evidence and updates.
pub mod Prelude
pub mod Event
pub mod Externals
pub mod Sensitivity
pub mod Legacy
pub mod Store
pub mod Policy
pub mod Portability
pub mod Maintenance
pub mod Audit
pub mod Consolidation
pub mod Recall
pub mod Api
pub mod Tests
