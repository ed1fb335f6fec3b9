-- ===== src/Mirror/Scan/Known.antt =====
-- `promote` of internal/mirror/mirror.go, on a path that the tree knows.
use distributed_configs_fs.Base.{
  ◌≡◌, refl, ◌⊎◌, inl, inr, Bool, true, false, ltz, Text, some, [], arith,
}
use distributed_configs_fs.Core.Error.{ok, Result-cases}
use distributed_configs_fs.Effect.{◌>>=◌}
use distributed_configs_fs.Store.State.{EntryRow, meta}
use distributed_configs_fs.Store.Table.{take_row}
use distributed_configs_fs.Store.Ops.{at_path, get}
use distributed_configs_fs.Store.Outcome.{sql_succeeds}
use distributed_configs_fs.Syncer.State.{Config}
use distributed_configs_fs.Mirror.Disk.{Inode, Disk, node_at, lstat}
use distributed_configs_fs.Mirror.Disk.Reads.{lstat-At}
use distributed_configs_fs.Mirror.State.{Mirror, on_disk, stored}
use distributed_configs_fs.Mirror.Scan.{promote, promote_info, disk_is_newer}

-- The tree knows the path as deleted, or what stands there has been modified no later than the
-- version of the tree says.
abbrev pub IsBehind : Text → EntryRow → Disk → Type 0
IsBehind p r d =
    (r.deleted ≡ true) ⊎ ((n : Inode) → node_at p d ≡ some n → ltz r.hlc_wall n.mtime ≡ false)

module _ (sum256 : Text → Text) (cfg : Config) (p : Text) (as_dir : Bool) where
  stored_row :
      (m : Mirror) (r : EntryRow)
      → m.tree.db.faults ≡ []
      → take_row (at_path p) m.tree.db.entries ≡ some r
      → stored p m ≡ (ok (meta r, true), m)
  unfolding stored get ◌>>=◌
  stored_row m r f e = rw (sql_succeeds m.tree.db f) (rw e refl)

  not_newer :
      (r : EntryRow) (d : Disk) (n : Inode)
      → IsBehind p r d
      → node_at p d ≡ some n
      → disk_is_newer (meta r) true n.mtime ≡ false
  unfolding disk_is_newer meta
  not_newer r d n (inl e) h = rw e refl
  not_newer r d n (inr k) h = let older = k n h in ground (arith, older)

  info_leaves :
      (m : Mirror) (r : EntryRow) (info : Inode)
      → m.tree.db.faults ≡ []
      → take_row (at_path p) m.tree.db.entries ≡ some r
      → disk_is_newer (meta r) true info.mtime ≡ false
      → (promote_info sum256 cfg p as_dir info m).1.tree ≡ m.tree
  unfolding promote_info ◌>>=◌
  info_leaves m r info f e older = rw (stored_row m r f e) (rw older refl)

  -- Where the database does not fail, promoting a path whose entry in the tree is a tombstone, or
  -- has a version whose wall time is not before the time at which the file was modified, changes
  -- nothing of the tree, whatever system calls fail: neither is a deleted path adopted again, nor a
  -- newer version replaced by an older file.
  pub promote_leaves :
      (m : Mirror) (r : EntryRow)
      → m.tree.db.faults ≡ []
      → take_row (at_path p) m.tree.db.entries ≡ some r
      → IsBehind p r m.disk
      → (promote sum256 cfg p as_dir m).1.tree ≡ m.tree
  unfolding promote ◌>>=◌
  promote_leaves m r f e behind =
      let j = (lstat-At p (node_at p m.disk)).ends m.disk refl in
      elim (Result-cases (lstat p m.disk).0) [
        | inl (info, g) ↦
            let (a, b) = (rw g at j) in
            rw g (info_leaves (on_disk (lstat p) m).1 r info f e (not_newer r m.disk info behind b))
        | inr (x, g) ↦ rw g refl
      ]
