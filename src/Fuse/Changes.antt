-- ===== src/Fuse/Changes.antt =====
-- internal/fusefs/fusefs.go: the operations on the nodes that create, remove and rename.
use distributed_configs_fs.Base.{
  ℕ, Bool, true, false, Text, List, [], ◌∷◌, ◌++◌, ◌==◌, nat_eq, text_eq, if◌then◌else◌, has_prefix,
  codes,
}
use distributed_configs_fs.Core.Entry.{Meta, Kind, kind_file, kind_dir}
use distributed_configs_fs.Core.Paths.{sanitize_mode}
use distributed_configs_fs.Store.Ops
use distributed_configs_fs.Syncer.State.{Config, on_db}
use distributed_configs_fs.Syncer.Local.{put_file, put_dir, delete}
use distributed_configs_fs.Fuse.State.{
  Fuse, return, check, call, ◌>>=◌, ◌>>◌, errno_of, Attr, attr_of, child, enoent, eio, eisdir,
  enotdir, enotempty, einval,
}
use distributed_configs_fs.Fuse.Handles.{WriteHandle}
use distributed_configs_fs.Fuse.Nodes.{is_clean, get_live}

abbrev no_children : Text → List Meta → Bool
no_children prefix [] = true
no_children prefix (m ∷ ms) = if has_prefix m.path prefix then false else no_children prefix ms

module _ (sum256 : Text → Text) (cfg : Config) where
  -- `Create`; `uid` and `gid` are the caller's.
  unfoldable pub create : Text → Text → ℕ → ℕ → ℕ → Fuse (Attr × WriteHandle)
  unfolding put_file Ops.get attr_of child errno_of
  create path name mode uid gid = do
    let p = child path name
    check (is_clean p) einval
    let perm = sanitize_mode mode
    call errno_of (put_file sum256 cfg p [] perm uid gid)
    m ← call (λ _. eio) (on_db (Ops.get p))
    return
        (attr_of m, record { path = p; buf = []; mode = perm; uid = uid; gid = gid; dirty = false })

  unfoldable pub mkdir : Text → Text → ℕ → ℕ → ℕ → Fuse Attr
  unfolding put_dir Ops.get attr_of child errno_of
  mkdir path name mode uid gid = do
    let p = child path name
    check (is_clean p) einval
    call errno_of (put_dir cfg p (sanitize_mode mode) uid gid)
    m ← call (λ _. eio) (on_db (Ops.get p))
    return (attr_of m)

  unfoldable pub remove : Text → Text → Kind → Fuse (Unit {0})
  unfolding get_live delete child errno_of
  remove path name kind = do
    m ← get_live enoent (child path name)
    check (m.kind == kind) (if kind == kind_file then eisdir else enotdir)
    call errno_of (delete cfg (child path name))

  unfoldable pub unlink : Text → Text → Fuse (Unit {0})
  unfolding remove
  unlink path name = remove path name kind_file

  unfoldable pub rmdir : Text → Text → Fuse (Unit {0})
  unfolding remove Ops.live
  rmdir path name = do
    entries ← call (λ _. eio) (on_db Ops.live)
    check (no_children (child path name ++ codes "/") entries) enotempty
    remove path name kind_dir

  -- The copy that `Rename` makes, by the kind of the entry; other kinds are not copied.
  copy_entry : Text → Text → Meta → Fuse (Unit {0})
  unfolding put_dir put_file Ops.live Ops.blob errno_of
  copy_entry source target m =
      if m.kind == kind_dir
      then (do
        entries ← call (λ _. eio) (on_db Ops.live)
        check (no_children (source ++ codes "/") entries) enotempty
        call errno_of (put_dir cfg target m.mode m.uid m.gid))
      else if m.kind == kind_file
      then (do
        content ← call (λ _. eio) (on_db (Ops.blob m.hash))
        call errno_of (put_file sum256 cfg target content m.mode m.uid m.gid))
      else return tt

  -- `Rename` within the mount.
  unfoldable pub rename : Text → Text → Text → Text → Fuse (Unit {0})
  unfolding copy_entry get_live delete child errno_of
  rename path name new_path new_name = do
    check (is_clean (child new_path new_name)) einval
    m ← get_live enoent (child path name)
    copy_entry (child path name) (child new_path new_name) m
    call errno_of (delete cfg (child path name))
