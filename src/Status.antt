-- ===== src/Status.antt =====
-- src/handles/status-handle.cpp and the reports that the repository's parts give it.
pub mod Json
pub mod Words
pub mod Reports
pub mod Publish
pub mod Listen
pub mod Broken
