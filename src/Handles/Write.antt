-- ===== src/Handles/Write.antt =====
-- The `WriteHandle` that is compiled: src/handles/write-handle.hpp (to line 94) and
-- src/handles/write-handle.cpp (to line 133). A call of the random generator is an argument.
pub mod Defs
pub mod Runs
pub mod Pending
pub mod Tallies
pub mod Counts
