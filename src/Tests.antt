-- ===== src/Tests.antt =====
-- Runs of the code at concrete inputs, and the theorems at such runs.
pub mod Core
pub mod Node
pub mod Pull
pub mod Digest
pub mod Conflict
pub mod Wire
pub mod Mirror
pub mod Gossip
pub mod Mount
