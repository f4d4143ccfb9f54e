-- ===== src/Repo/System.antt =====
-- `FastRepoImpl` as one system: the handles over the storage engine that they share, and the
-- signal of new data.
pub mod Defs
pub mod Sound
pub mod Faults
pub mod Runs
pub mod Announced
pub mod Kept
pub mod Stays
pub mod Served
pub mod Lost
pub mod Stored
pub mod Provenance
pub mod Boot
pub mod Main
