-- ===== src/Store.antt =====
-- internal/store: the tables, and the operations on them.
pub mod Table
pub mod State
pub mod Ops
pub mod Outcome
pub mod Collect
pub mod Feed
pub mod Sorted
pub mod Agree
pub mod Invariant
