-- ===== src/Core.antt =====
-- internal/core: the entry, the hybrid logical clock, path and mode checks.
pub mod Error
pub mod Entry
pub mod Order
pub mod Clock
pub mod Paths
