-- ===== src/Syncer.antt =====
-- internal/syncer: the single writer.
pub mod Resolve
pub mod State
pub mod Local
pub mod Pull
pub mod Content
pub mod Outcome
pub mod Servable
pub mod Reachable
pub mod Loop
