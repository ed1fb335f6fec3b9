-- ===== src/Mirror/Render.antt =====
-- internal/mirror/mirror.go: `render`, which writes the tree out to the directory.
pub mod Keeping
pub mod Spares
pub mod Applied
pub mod Content
use distributed_configs_fs.Base.{
  ℕ, Bool, true, false, not, ◌||◌, Text, ltt, List, [], ◌∷◌, ◌==◌, nat_eq, text_eq, if◌then◌else◌,
}
use distributed_configs_fs.Core.Error.{Error, Result, ok, err, not_exist, io, on_result}
use distributed_configs_fs.Core.Entry.{Meta, kind_file, kind_dir, hash_content}
use distributed_configs_fs.Effect.{Exec, pure, lift, gets, modify, ensure, ◌>>=◌, ◌>>◌}
use distributed_configs_fs.Store.Table.{order_by}
use distributed_configs_fs.Store.Ops.{blob}
use distributed_configs_fs.Syncer.State.{on_db}
use distributed_configs_fs.Mirror.Disk.{
  Inode, Disk, is_regular, lstat, read_file, chmod, lchown, remove,
}
use distributed_configs_fs.Mirror.Write.{make_all, write_atomic}
use distributed_configs_fs.Mirror.Walk.{walk}
use distributed_configs_fs.Mirror.State.{
  Mirror, on_disk, on_tree, result_of, logged, is_inflight, claimed, stored, live_entries,
}

-- The first failed chown turns `canChown` off, and is warned of once.
abbrev pub after_chown : Result (Unit {0}) → Mirror → Mirror
after_chown (ok u) m = m
after_chown (err e) m = record m { can_chown = false; warned_chown = true }

unfoldable pub apply_meta : Meta → Exec Mirror (Unit {0})
apply_meta e = do
  on_disk (chmod e.path e.mode)
  can ← gets (λ m. m.can_chown)
  r ← if can then result_of (on_disk (lchown e.path e.uid e.gid)) else pure (ok tt)
  modify (after_chown r)

unfoldable pub render_dir : Meta → Exec Mirror (Unit {0})
unfolding apply_meta
render_dir e = do on_disk (make_all e.path e.mode); apply_meta e

-- `readLocal`, of which the caller uses the hash.
unfoldable pub read_local : (Text → Text) → Text → Exec Disk Text
read_local sum256 p = do
  info ← lstat p
  ensure (is_regular info.kind) io
  content ← read_file p
  pure (hash_content sum256 content)

abbrev pub has_hash_already : Text → Result Text → Bool
has_hash_already hash (ok h) = h == hash
has_hash_already hash (err e) = false

-- The error of readLocal that renderFile returns.
abbrev pub unless_missing : Result Text → Result (Unit {0})
unless_missing (ok h) = ok tt
unless_missing (err not_exist) = ok tt
unless_missing (err e) = err e

unfoldable pub write_file : Meta → Exec Mirror (Unit {0})
unfolding apply_meta
write_file e = do
  content ← on_tree (on_db (blob e.hash))
  on_disk (write_atomic e.path content e.mode)
  apply_meta e

module _ (sum256 : Text → Text) where
  unfoldable pub render_file : Meta → Exec Mirror (Unit {0})
  unfolding apply_meta write_file read_local
  render_file e = do
    local ← result_of (on_disk (read_local sum256 e.path))
    if has_hash_already e.hash local
        then apply_meta e
        else lift (unless_missing local) >> write_file e

  unfoldable pub render_entry : Meta → Exec Mirror (Unit {0})
  unfolding render_dir render_file is_inflight
  render_entry e = do
    busy ← gets (is_inflight e.path)
    if busy
        then pure tt
        else if e.kind == kind_dir
        then logged (render_dir e)
        else if e.kind == kind_file
        then logged (render_file e)
        else pure tt

  unfoldable pub render_entries : List Meta → Exec Mirror (Unit {0})
  unfolding render_entry
  render_entries [] = pure tt
  render_entries (e ∷ es) = render_entry e >> render_entries es

unfoldable pub paths_of : List Meta → List Text
paths_of [] = []
paths_of (e ∷ es) = e.path ∷ paths_of es

-- Whether the visit of a path dooms it: neither kept nor inflight, and a tombstone in the tree.
unfoldable pub is_doomed : List Text → Text → Exec Mirror Bool
unfolding claimed is_inflight stored
is_doomed keep p = do
  busy ← gets (λ m. claimed p keep || is_inflight p m)
  if busy then pure false else (do (entry, known) ← stored p; pure (entry.deleted))

unfoldable pub find_doomed : List Text → List Inode → Exec Mirror (List Text)
unfolding is_doomed
find_doomed keep [] = pure []
find_doomed keep (n ∷ ns) = do
  doomed ← is_doomed keep n.path
  rest ← find_doomed keep ns
  pure (if doomed then n.path ∷ rest else rest)

unfoldable pub remove_paths : List Text → Exec Mirror (Unit {0})
remove_paths [] = pure tt
remove_paths (p ∷ ps) = logged (on_disk (remove p)) >> remove_paths ps

unfoldable pub remove_tombstoned : Exec Mirror (Unit {0})
unfolding live_entries find_doomed remove_paths walk order_by paths_of
remove_tombstoned = do
  live ← live_entries
  visited ← gets (λ m. walk m.disk)
  doomed ← find_doomed (paths_of live) visited
  remove_paths (order_by (λ p q. ltt q p) doomed)

unfoldable pub render : (Text → Text) → Exec Mirror (Unit {0})
unfolding live_entries render_entries remove_tombstoned order_by
render sum256 = do
  entries ← live_entries
  render_entries sum256 (order_by (λ (e f : Meta). ltt e.path f.path) entries)
  remove_tombstoned
