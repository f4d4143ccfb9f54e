-- ===== src/Legacy.antt =====
-- The handlers of the repo-ng code that the sources keep between `#if 0` and `#endif`: segmented
-- insertion, watched prefixes and deletion. They are not compiled today; README.md lists them as to
-- be implemented.
pub mod Messages
pub mod Segmented
pub mod Watch
pub mod Delete
pub mod Deleted
