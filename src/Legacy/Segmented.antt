-- ===== src/Legacy/Segmented.antt =====
-- The segmented `WriteHandle` between `#if 0` and `#endif` of src/handles/write-handle.hpp and
-- src/handles/write-handle.cpp.
pub mod Defs
pub mod Commands
pub mod Ranges
pub mod Going
pub mod Dispatch
pub mod Window
pub mod Sends
pub mod Initial
pub mod Kept
pub mod Late
pub mod Complete
pub mod Retries
