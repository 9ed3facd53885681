-- ===== src/Api/Invariant.antt =====
-- The invariant of the tables, and that every operation of the store keeps it.
pub mod Steps
pub mod Rows
pub mod Supersede
pub mod Guarded
pub mod Single
pub mod Many
pub mod Policies
pub mod Rebuilt
pub mod Maintained
pub mod Consolidated
