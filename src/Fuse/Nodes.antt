-- ===== src/Fuse/Nodes.antt =====
-- internal/fusefs/fusefs.go: the operations on the nodes of the mount. A node is its path.
pub mod Listing
use Prim.Native.Nat.{bit_or, bit_and}
use distributed_configs_fs.Base.{
  ℕ, Bool, true, false, not, ◌||◌, ltb, pos, ltz, wrap64, Text, List, [], ◌∷◌, ◌++◌, ◌==◌, nat_eq,
  text_eq, if◌then◌else◌, length, take, drop, has_prefix, contains_text, codes, Option, none, some,
}
use distributed_configs_fs.Core.Error.{ok, err}
use distributed_configs_fs.Core.Entry.{Meta, Kind, kind_file, kind_dir}
use distributed_configs_fs.Core.Paths.{sanitize_path, sanitize_mode}
use distributed_configs_fs.Store.Ops
use distributed_configs_fs.Syncer.State.{Config, on_db}
use distributed_configs_fs.Syncer.Local.{put_file, put_dir, set_attr, delete}
use distributed_configs_fs.Fuse.State.{
  Errno, Fuse, return, check, call, ◌>>=◌, ◌>>◌, errno_of, Attr, attr_of, ino_of, child, s_ifdir,
  s_ifreg, enoent, eio, eperm, efbig, eisdir, enotdir, enotempty, einval,
}
use distributed_configs_fs.Fuse.Handles.{WriteHandle, grow}

abbrev pub is_clean : Text → Bool
is_clean p = elim (sanitize_path p) [ ok _ ↦ true | err _ ↦ false ]

-- `tree.Get` where any error and a tombstone are the same answer.
unfoldable pub get_live : Errno → Text → Fuse Meta
unfolding Ops.get
get_live e p = do m ← call (λ _. e) (on_db (Ops.get p)); check (not m.deleted) e; return m

unfoldable pub lookup_node : Text → Text → Fuse Attr
unfolding get_live attr_of child
lookup_node path name = do
  check (is_clean (child path name)) enoent
  m ← get_live enoent (child path name)
  return (attr_of m)

pub record DirEntry : Type 0 where
  pub name : Text
  pub mode : ℕ
  pub ino : ℕ

-- The prefix of the paths below a node.
abbrev pub below : Text → Text
below path = if path == [] then [] else path ++ codes "/"

abbrev dir_entry : Meta → Text → DirEntry
dir_entry m rest = record {
  name = rest;
  mode = if m.kind == kind_dir then s_ifdir else s_ifreg;
  ino = ino_of m.path;
}

-- The loop of `Readdir`.
unfoldable pub direct_children : Text → List Meta → List DirEntry
direct_children prefix [] = []
direct_children prefix (m ∷ ms) =
    let others = direct_children prefix ms in
    let rest = drop (length prefix) m.path in
    if not (has_prefix m.path prefix)
    then others
    else if rest == [] || contains_text rest (codes "/")
    then others
    else dir_entry m rest ∷ others

unfoldable pub readdir : Text → Fuse (List DirEntry)
unfolding direct_children Ops.live
readdir path = do
  entries ← call (λ _. eio) (on_db Ops.live)
  return (direct_children (below path) entries)

-- `Getattr` of a path; `euid` and `egid` are those of the process.
unfoldable pub getattr : ℕ → ℕ → Text → Fuse Attr
unfolding get_live attr_of
getattr euid egid path =
    if path == []
    then return (record {
      ino = ino_of [];
      size = 0;
      mode = bit_or s_ifdir 0o755;
      uid = euid;
      gid = egid;
      time = 0;
      nlink = 2;
      blocks = 0;
    })
    else (do m ← get_live enoent path; return (attr_of m))

-- `Getattr` of a handle that is being written.
unfoldable pub getattr_handle : WriteHandle → Attr
getattr_handle h = record {
  ino = ino_of h.path;
  size = length h.buf;
  mode = bit_or h.mode s_ifreg;
  uid = h.uid;
  gid = h.gid;
  time = 0;
  nlink = 1;
  blocks = 0;
}

-- The fields that a setattr request carries.
pub record SetAttrIn : Type 0 where
  pub size : Option ℕ
  pub mode : Option ℕ
  pub uid : Option ℕ
  pub gid : Option ℕ

abbrev pub or_else : Option ℕ → ℕ → ℕ
or_else none d = d
or_else (some v) d = v

-- The content cut or grown to a size.
unfoldable pub resize : ℕ → Text → Text
unfolding grow
resize size content =
    if ltb size (length content)
    then take size content
    else if ltb (length content) size
    then grow size content
    else content

module _ (sum256 : Text → Text) (cfg : Config) where
  truncate_to : Text → Meta → ℕ → Fuse Meta
  unfolding resize Ops.blob put_file errno_of
  truncate_to path m size = do
    check (not (ltz cfg.max_file_size (wrap64 (pos size)))) efbig
    content ← call (λ _. eio) (on_db (Ops.blob m.hash))
    call errno_of (put_file sum256 cfg path (resize size content) m.mode m.uid m.gid)
    return (record m { size = pos (length (resize size content)) })

  truncate : Text → Meta → Option ℕ → Fuse Meta
  unfolding truncate_to
  truncate path m none = return m
  truncate path m (some size) = if m.kind == kind_file then truncate_to path m size else return m

  change_attr : Text → Meta → ℕ → ℕ → ℕ → Fuse Meta
  unfolding set_attr errno_of
  change_attr path m mode uid gid =
      if not (mode == m.mode) || not (uid == m.uid) || not (gid == m.gid)
      then (do
        call errno_of (set_attr cfg path mode uid gid)
        return (record m { mode = mode; uid = uid; gid = gid }))
      else return m

  new_mode : Option ℕ → ℕ → ℕ
  new_mode none mode = mode
  new_mode (some v) mode = sanitize_mode v

  unfoldable pub setattr : Text → SetAttrIn → Fuse Attr
  unfolding truncate change_attr new_mode get_live attr_of
  setattr path req = do
    check (not (path == [])) eperm
    m ← get_live enoent path
    m' ← truncate path m req.size
    m'' ←
        change_attr path m' (new_mode req.mode m'.mode) (or_else req.uid m'.uid)
          (or_else req.gid m'.gid)
    return (attr_of m'')

pub data Handle : Type 0 where
  reading : Text → Handle
  writing : WriteHandle → Handle

-- syscall.O_WRONLY | syscall.O_RDWR, and syscall.O_TRUNC
abbrev pub o_write : ℕ
o_write = 3

abbrev pub o_trunc : ℕ
o_trunc = 0o1000

abbrev pub handle_on : Text → Meta → Text → WriteHandle
handle_on path m buf = record {
  path = path;
  buf = buf;
  mode = m.mode;
  uid = m.uid;
  gid = m.gid;
  dirty = false;
}

unfoldable pub open_node : Text → ℕ → Fuse Handle
unfolding get_live Ops.blob
open_node path flags = do
  m ← get_live enoent path
  check (m.kind == kind_file) eisdir
  if bit_and flags o_write == 0
      then (do content ← call (λ _. eio) (on_db (Ops.blob m.hash)); return (reading content))
      else if not (bit_and flags o_trunc == 0)
      then return (writing (handle_on path m []))
      else (do
        content ← call (λ _. eio) (on_db (Ops.blob m.hash))
        return (writing (handle_on path m content)))
