-- ===== src/Patterns.antt =====
-- src/handles/patterns and src/handles/pattern-handle.cpp: fetch patterns, the factory that makes
-- them and the handle that starts and cancels them.
pub mod Fetch
pub mod Handle
pub mod Decimal
pub mod Cases
pub mod Replies
pub mod Cancels
pub mod Linked
pub mod Rounds
pub mod Histories
pub mod Trace
pub mod Counted
pub mod Gone
pub mod Counting
pub mod Completes
pub mod Objects
pub mod Factory
pub mod Lifetime
