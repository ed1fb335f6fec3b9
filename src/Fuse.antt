-- ===== src/Fuse.antt =====
-- internal/fusefs: the mounted projection.
pub mod State
pub mod Handles
pub mod Nodes
pub mod Changes
