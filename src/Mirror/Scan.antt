-- ===== src/Mirror/Scan.antt =====
-- internal/mirror/mirror.go: `scan` and `promote`, which offer the directory to the tree.
pub mod Known
use Prim.Native.Nat.{bit_and}
use distributed_configs_fs.Base.{
  ℕ, Bool, true, false, not, ◌&&◌, ℤ, pos, ltz, Text, List, [], ◌∷◌, length, if◌then◌else◌,
}
use distributed_configs_fs.Core.Error.{Error, Result, ok, err, on_result}
use distributed_configs_fs.Core.Entry.{Meta}
use distributed_configs_fs.Effect.{Exec, pure, gets, ◌>>=◌, ◌>>◌}
use distributed_configs_fs.Syncer.State.{Config}
use distributed_configs_fs.Syncer.Local.{put_file, put_dir, delete}
use distributed_configs_fs.Mirror.Disk.{Inode, Disk, is_dir, is_regular, lstat, read_file}
use distributed_configs_fs.Mirror.Walk.{walk}
use distributed_configs_fs.Mirror.State.{Mirror, on_disk, on_tree, result_of, logged, stored}

unfoldable pub disk_is_newer : Meta → Bool → ℤ → Bool
disk_is_newer stored known mod_time =
    if not known
    then true
    else if stored.deleted
    then false
    else ltz stored.version.hlc.wall mod_time

unfoldable pub ownership_for : Bool → Inode → Meta → Bool → ℕ × ℕ
ownership_for can_chown info stored known =
    if not can_chown && known then (stored.uid, stored.gid) else (info.uid, info.gid)

-- `info.Mode().Perm()`
abbrev pub perm : ℕ → ℕ
perm mode = bit_and mode 0o777

-- `info.Size()`
abbrev pub size_of : Inode → ℤ
size_of n = if is_regular n.kind then pos (length n.content) else n.other_size

module _ (sum256 : Text → Text) (cfg : Config) where
  unfoldable pub offer_file : Text → Inode → ℕ → ℕ → Exec Mirror (Unit {0})
  offer_file p info uid gid = if ltz cfg.max_file_size (size_of info) then pure tt else do
    content ← on_disk (read_file p)
    on_tree (put_file sum256 cfg p content (perm info.mode) uid gid)

  unfoldable pub offer : Text → Bool → Inode → ℕ × ℕ → Exec Mirror (Unit {0})
  unfolding offer_file
  offer p as_dir info (uid, gid) =
      if as_dir then on_tree (put_dir cfg p (perm info.mode) uid gid) else offer_file p info uid gid

  unfoldable pub promote_info : Text → Bool → Inode → Exec Mirror (Unit {0})
  promote_info p as_dir info = do
    (entry, known) ← stored p
    can ← gets (λ m. m.can_chown)
    if disk_is_newer entry known info.mtime
        then offer p as_dir info (ownership_for can info entry known)
        else pure tt

  -- `promote` logs its errors: the tree and the directory are what it leaves.
  unfoldable pub promote : Text → Bool → Exec Mirror (Unit {0})
  unfolding promote_info
  promote p as_dir = logged (do info ← on_disk (lstat p); promote_info p as_dir info)

  unfoldable pub promote_all : List Inode → Exec Mirror (Unit {0})
  unfolding promote
  promote_all [] = pure tt
  promote_all (n ∷ ns) = promote n.path (is_dir n.kind) >> promote_all ns

  unfoldable pub scan : Exec Mirror (Unit {0})
  unfolding promote_all walk
  scan = do visited ← gets (λ m. walk m.disk); promote_all visited

unfoldable pub delete_local : Config → Text → Exec Mirror (Unit {0})
delete_local cfg p = logged (on_tree (delete cfg p))
