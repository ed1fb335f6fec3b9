-- ===== src/Mirror/Render/Spares.antt =====
-- The paths that `render` of internal/mirror/mirror.go leaves alone.
use distributed_configs_fs.Base.{◌≡◌, ◌⊎◌, true, Text, nat_eq, none}
use distributed_configs_fs.Effect.Runs.{Runs}
use distributed_configs_fs.Store.Table.{take_row}
use distributed_configs_fs.Store.Ops.{at_path}
use distributed_configs_fs.Mirror.State.{Mirror, is_inflight}
use distributed_configs_fs.Mirror.Render.Keeping.{Keeping}

module _ (q : Text) (start : Mirror) where
  -- The path is claimed, or the tree holds no row for it.
  abbrev IsSpared : Type 0
  IsSpared = (is_inflight q start ≡ true) ⊎ (take_row (at_path q) start.tree.db.entries ≡ none)
