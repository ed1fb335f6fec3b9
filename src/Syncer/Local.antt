-- ===== src/Syncer/Local.antt =====
-- internal/syncer/syncer.go: the writes that come from this node.
pub mod Ends
pub mod Live
pub mod Writes
pub mod Versions
pub mod View
pub mod Refines
use distributed_configs_fs.Base.{
  ℕ, Bool, true, false, not, ◌&&◌, ◌||◌, ℤ, pos, ltz, Text, List, [], ◌∷◌, length, ◌==◌, nat_eq,
  text_eq, if◌then◌else◌,
}
use distributed_configs_fs.Core.Error.{Error, Result, ok, err, not_found, too_large}
use distributed_configs_fs.Core.Entry.{Meta, Version, zero_meta, kind_file, kind_dir, hash_content}
use distributed_configs_fs.Core.Paths.{sanitize_path, sanitize_mode, is_conflict_name}
use distributed_configs_fs.Effect.{Exec, pure, lift, gets, modify, ensure, ◌>>=◌, ◌>>◌}
use distributed_configs_fs.Store.Ops.{get, apply, put_blob, live, blob}
use distributed_configs_fs.Syncer.State.{
  Config, Service, on_db, clock_now, time_now, notify, announce,
}

abbrev found : Result Meta → Result (Meta × Bool)
found (ok m) = ok (m, true)
found (err not_found) = ok (zero_meta, false)
found (err e) = err e

-- The current entry, and whether there is one.
unfoldable pub lookup : Text → Exec Service (Meta × Bool)
lookup path s = (found (on_db (get path) s).0, (on_db (get path) s).1)

module _ (cfg : Config) where
  unfoldable pub commit : List Meta → Exec Service (Unit {0})
  unfolding notify
  commit metas = do
    head ← on_db (apply metas)
    modify notify
    modify (if cfg.has_peers then announce head else (λ s. s))

  -- The version of a write that this node makes now.
  unfoldable pub new_version : Exec Service Version
  unfolding clock_now
  new_version = do t ← clock_now; pure (record { hlc = t; origin = cfg.node })

abbrev pub same_attr : Meta → ℕ → ℕ → ℕ → Bool
same_attr cur mode uid gid = cur.mode == mode && cur.uid == uid && cur.gid == gid

-- The short-circuit of PutFile and of PutDir.
unfoldable pub holds_file : Meta → Bool → Text → ℕ → ℕ → ℕ → Bool
holds_file cur have hash mode uid gid =
    have
    && not cur.deleted
    && cur.kind == kind_file
    && cur.hash == hash
    && same_attr cur mode uid gid

unfoldable pub holds_dir : Meta → Bool → ℕ → ℕ → ℕ → Bool
holds_dir cur have mode uid gid =
    have && not cur.deleted && cur.kind == kind_dir && same_attr cur mode uid gid

module _ (sum256 : Text → Text) (cfg : Config) where
  unfoldable pub write_file : Text → Text → ℕ → ℕ → ℕ → Meta → Exec Service (Unit {0})
  write_file path content mode uid gid cur = do
    on_db (put_blob sum256 content)
    version ← new_version cfg
    commit cfg (
        record zero_meta {
          path = path;
          kind = kind_file;
          hash = hash_content sum256 content;
          prev_hash = cur.hash;
          size = pos (length content);
          mode = mode;
          uid = uid;
          gid = gid;
          version = version;
        }
        ∷ [])

  unfoldable pub put_file : Text → Text → ℕ → ℕ → ℕ → Exec Service (Unit {0})
  put_file path content mode uid gid = do
    clean ← lift (sanitize_path path)
    ensure (not (ltz cfg.max_file_size (pos (length content)))) too_large
    (cur, have) ← lookup clean
    if holds_file cur have (hash_content sum256 content) (sanitize_mode mode) uid gid
        then pure tt
        else write_file clean content (sanitize_mode mode) uid gid cur

module _ (cfg : Config) where
  unfoldable pub write_dir : Text → ℕ → ℕ → ℕ → Exec Service (Unit {0})
  write_dir path mode uid gid = do
    version ← new_version cfg
    commit cfg (
        record zero_meta {
          path = path;
          kind = kind_dir;
          mode = mode;
          uid = uid;
          gid = gid;
          version = version;
        }
        ∷ [])

  unfoldable pub put_dir : Text → ℕ → ℕ → ℕ → Exec Service (Unit {0})
  put_dir path mode uid gid = do
    clean ← lift (sanitize_path path)
    (cur, have) ← lookup clean
    if holds_dir cur have (sanitize_mode mode) uid gid
        then pure tt
        else write_dir clean (sanitize_mode mode) uid gid

  unfoldable pub write_attr : ℕ → ℕ → ℕ → Meta → Exec Service (Unit {0})
  write_attr mode uid gid cur = do
    version ← new_version cfg
    commit cfg (
        record cur {
          mode = mode;
          uid = uid;
          gid = gid;
          prev_hash = cur.hash;
          seq = pos 0;
          version = version;
        }
        ∷ [])

  unfoldable pub set_attr : Text → ℕ → ℕ → ℕ → Exec Service (Unit {0})
  set_attr path mode uid gid = do
    clean ← lift (sanitize_path path)
    (cur, have) ← lookup clean
    ensure (not (not have || cur.deleted)) not_found
    if same_attr cur (sanitize_mode mode) uid gid
        then pure tt
        else write_attr (sanitize_mode mode) uid gid cur

  unfoldable pub write_tombstone : Text → Meta → Exec Service (Unit {0})
  write_tombstone path cur = do
    version ← new_version cfg
    now ← time_now
    commit cfg (
        record zero_meta {
          path = path;
          kind = cur.kind;
          prev_hash = cur.hash;
          mode = cur.mode;
          uid = cur.uid;
          gid = cur.gid;
          version = version;
          deleted = true;
          deleted_at = now;
        }
        ∷ [])

  unfoldable pub delete : Text → Exec Service (Unit {0})
  delete path = do
    clean ← lift (sanitize_path path)
    (cur, have) ← lookup clean
    if not have || cur.deleted then pure tt else write_tombstone clean cur

conflict_paths : List Meta → List Text
conflict_paths [] = []
conflict_paths (m ∷ ms) =
    let rest = conflict_paths ms in if is_conflict_name m.path then m.path ∷ rest else rest

unfoldable pub conflicts : Exec Service (List Text)
unfolding live conflict_paths
conflicts = do entries ← on_db live; pure (conflict_paths entries)
