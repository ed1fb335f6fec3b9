-- ===== src/Mirror/Loop/Claims.antt =====
-- The claims of internal/mirror on paths with an event that has not been acted on.
use distributed_configs_fs.Base.{◌≡◌, Text, text_eq, List}
use distributed_configs_fs.Mirror.Disk.{Disk}
use distributed_configs_fs.Mirror.State.{Mirror}

-- The claims are these.
abbrev Claims : List Text → Mirror → Type 0
Claims qs m = m.inflight ≡ qs
