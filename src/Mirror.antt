-- ===== src/Mirror.antt =====
-- internal/mirror: the directory on which the tree is projected.
pub mod Names
pub mod Disk
pub mod Write
pub mod State
pub mod Walk
pub mod Render
pub mod Scan
pub mod Watch
pub mod Loop
