-- ===== src/Tests.antt =====
-- Runs of the program on small inputs.
mod Program
mod Data
mod Runs
mod Policies
mod Texts
mod Audits
mod Exports
mod Consolidations
mod Recalls
