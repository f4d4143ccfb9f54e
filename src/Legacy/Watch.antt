-- ===== src/Legacy/Watch.antt =====
-- `WatchHandle` of src/handles/watch-handle.hpp and src/handles/watch-handle.cpp, which stands
-- between `#if 0` and `#endif`.
pub mod Defs
pub mod Runs
pub mod Dispatch
