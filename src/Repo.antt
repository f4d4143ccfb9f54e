-- ===== src/Repo.antt =====
-- src/repo/fast-repo.cpp: the repository's own state (the data prefixes that it has registered) and
-- its configuration.
pub mod Prefixes
pub mod System
pub mod Config
pub mod Parsed
pub mod Described
