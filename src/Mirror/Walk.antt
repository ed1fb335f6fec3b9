-- ===== src/Mirror/Walk.antt =====
-- `walk` of internal/mirror/mirror.go: what it visits of a directory.
use distributed_configs_fs.Base.{
  Bool, true, false, not, ◌&&◌, ◌||◌, Text, List, [], ◌∷◌, Option, none, some, text_eq, nat_eq,
}
use distributed_configs_fs.Core.Error.{ok, err}
use distributed_configs_fs.Core.Paths.{sanitize_path}
use distributed_configs_fs.Store.Table.{select, order_by}
use distributed_configs_fs.Mirror.Names.{ancestors, is_tmp, walk_before}
use distributed_configs_fs.Mirror.Disk.{Inode, Disk, is_dir, is_regular, node_at}

abbrev can_list : Option Inode → Bool
can_list none = false
can_list (some n) = is_dir n.kind && n.listable

-- WalkDir comes to a path through directories that it can read.
unfoldable pub walk_reaches : List Text → Disk → Bool
unfolding node_at
walk_reaches [] d = true
walk_reaches (q ∷ qs) d = can_list (node_at q d) && walk_reaches qs d

abbrev pub is_replicable : Text → Bool
is_replicable p = elim (sanitize_path p) [ ok q ↦ true | err e ↦ false ]

-- Not a scratch file, nor what is neither a directory nor a regular file, nor a path that is
-- refused. What lies in a directory whose path is refused has a path that is refused too.
abbrev pub is_visited : Disk → Inode → Bool
is_visited d n =
    not (is_tmp n.path)
    && (is_dir n.kind || is_regular n.kind)
    && is_replicable n.path
    && walk_reaches (ancestors n.path) d

-- The entries that `visit` is called with, in the order of the walk.
unfoldable pub walk : Disk → List Inode
unfolding select order_by walk_before walk_reaches is_tmp ancestors sanitize_path
walk d = order_by (λ n m. walk_before n.path m.path) (select (is_visited d) d.nodes)
