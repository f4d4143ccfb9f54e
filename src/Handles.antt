-- ===== src/Handles.antt =====
-- src/handles: the handlers of Interests that a repository registers with its face.
pub mod Base
pub mod Write
pub mod Read
