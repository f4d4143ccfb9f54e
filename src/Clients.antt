-- ===== src/Clients.antt =====
-- The two command-line clients of examples, and how the pattern handle answers them.
pub mod Commands
pub mod Wire
pub mod Session
