-- ===== src/Mirror/Disk.antt =====
-- The directory of the mirror, behind the methods of `os.Root` that internal/mirror/mirror.go calls.
-- A link in the middle of a path is not followed; one at its end is, where the call follows links.
-- New files and directories get the mode that is asked for, as with a umask of 0.
pub mod Nodes
pub mod Leaves
pub mod Reads
pub mod Links
use distributed_configs_fs.Base.{
  ℕ, zero, suc, ◌+◌, ◌-◌, ◌*◌, ◌/◌, ◌%◌, ◌^◌, Bool, true, false, not, ◌&&◌, ℤ, Text, text_eq, List,
  [], ◌∷◌, ◌++◌, take, ◌==◌, nat_eq, has_prefix, Option, none, some, if◌then◌else◌,
}
use distributed_configs_fs.Core.Error.{Error, Result, ok, err, not_exist, exists, io, on_result}
use distributed_configs_fs.Effect.{
  Exec, reads, pure, lift, gets, some_or, modify, ensure, ◌>>=◌, ◌>>◌,
}
use distributed_configs_fs.Store.Table.{take_row, upsert, select}
use distributed_configs_fs.Mirror.Names.{ancestors}

-- A device, a socket or a FIFO is `special`.
pub data NodeKind : Type 0 where
  regular directory link special : NodeKind

abbrev pub is_dir : NodeKind → Bool
is_dir regular = false
is_dir directory = true
is_dir link = false
is_dir special = false

abbrev pub is_regular : NodeKind → Bool
is_regular regular = true
is_regular directory = false
is_regular link = false
is_regular special = false

abbrev pub is_link : NodeKind → Bool
is_link regular = false
is_link directory = false
is_link link = true
is_link special = false

-- `target` is the path to which a link leads, none for a link that leads out of the directory and
-- for what is no link. `mode` has the permission bits and, as in POSIX, setuid, setgid and sticky.
-- `other_size` is the size that Lstat reports of what is no regular file. A directory that is not
-- `listable` cannot be read by a walk.
pub record Inode : Type 0 where
  pub path : Text
  pub kind : NodeKind
  pub content : Text
  pub target : Option Text
  pub other_size : ℤ
  pub mode : ℕ
  pub uid : ℕ
  pub gid : ℕ
  pub mtime : ℤ
  pub listable : Bool

-- `time` is the time of day, in ns; `uid` and `gid` are the process's own. `faults` says which of
-- the system calls to come fail; a write that fails has written as many bytes as it says. Past its
-- end every call succeeds. `max_links` is how many links `os.Root` follows one after another.
pub record Disk : Type 0 where
  pub nodes : List Inode
  pub time : ℤ
  pub uid : ℕ
  pub gid : ℕ
  pub faults : List (Option ℕ)
  pub max_links : ℕ

abbrev pub at_node : Text → Inode → Bool
at_node p n = n.path == p

abbrev pub same_node : Inode → Inode → Bool
same_node n m = m.path == n.path

unfoldable pub node_at : Text → Disk → Option Inode
unfolding take_row
node_at p d = take_row (at_node p) d.nodes

-- `n` is what stands at the path from now on.
unfoldable pub put_node : Text → Inode → Disk → Disk
unfolding upsert
put_node p n d = record d { nodes = upsert same_node (record n { path = p }) d.nodes }

unfoldable pub drop_node : Text → Disk → Disk
unfolding select
drop_node p d = record d { nodes = select (λ n. not (n.path == p)) d.nodes }

abbrev next_outcome : List (Option ℕ) → Disk → Option ℕ × Disk
next_outcome [] d = (none, d)
next_outcome (f ∷ fs) d = (f, record d { faults = fs })

-- How the next system call ends.
unfoldable pub next_fault : Exec Disk (Option ℕ)
next_fault d = (ok (next_outcome d.faults d).0, (next_outcome d.faults d).1)

abbrev pub call_result : Option ℕ → Result (Unit {0})
call_result none = ok tt
call_result (some n) = err io

unfoldable pub syscall : Exec Disk (Unit {0})
syscall = do f ← next_fault; lift (call_result f)

-- A path is reached through directories: one that is missing is reported as such, anything else
-- that stands in the way is another error.
reach_from : List Text → Disk → Result (Unit {0})
reach_from [] d = ok tt
reach_from (q ∷ qs) d =
    let rest = reach_from qs d in
    elim (node_at q d) [ none ↦ err not_exist | some n ↦ if is_dir n.kind then rest else err io ]

unfoldable pub reach : Text → Disk → Result (Unit {0})
unfolding reach_from
reach p d = reach_from (ancestors p) d

abbrev pub found_node : Result (Unit {0}) → Option Inode → Result Inode
found_node r none = on_result err (λ _. err not_exist) r
found_node r (some n) = ok n

unfoldable pub find : Text → Exec Disk Inode
unfolding reach node_at
find p = reads (λ d. found_node (reach p d) (node_at p d))

-- Root.Lstat
unfoldable pub lstat : Text → Exec Disk Inode
lstat p = do syscall; find p

-- Where the link that stands at a path leads, if there is one.
unfoldable pub led_to : Option Inode → Option (Option Text)
led_to none = none
led_to (some n) = if is_link n.kind then some n.target else none

abbrev pub led_on : (Text → Option Text) → Text → Option (Option Text) → Option Text
led_on next p none = some p
led_on next p (some none) = none
led_on next p (some (some q)) = next q

-- The path at which a chain of links ends, of as many links at most.
unfoldable pub follow : ℕ → Text → List Inode → Option Text
unfolding take_row led_to
follow zero p nodes = none
follow (suc k) p nodes = led_on (λ q. follow k q nodes) p (led_to (take_row (at_node p) nodes))

abbrev pub reached : Option Text → Result Text
reached none = err io
reached (some q) = ok q

unfoldable pub follow_links : Text → Exec Disk Text
unfolding follow
follow_links p = reads (λ d. reached (follow (suc d.max_links) p d.nodes))

-- Root.ReadFile, which follows a link
unfoldable pub read_file : Text → Exec Disk Text
read_file p = do
  syscall
  q ← follow_links p
  n ← find q
  ensure (not (is_dir n.kind)) io
  pure n.content

-- What package os makes of an `fs.FileMode`: the permission bits, and setuid, setgid and sticky,
-- which are its bits 23, 22 and 20.
unfoldable pub unix_mode : ℕ → ℕ
unix_mode mode =
    mode % 512 + mode / 2 ^ 23 % 2 * 2048 + mode / 2 ^ 22 % 2 * 1024 + mode / 2 ^ 20 % 2 * 512

-- A new directory gets neither setuid nor setgid.
unfoldable pub mkdir_mode : ℕ → ℕ
mkdir_mode mode = mode % 512 + mode / 2 ^ 20 % 2 * 512

abbrev pub new_node : Text → NodeKind → ℕ → Disk → Inode
new_node p kind mode d = record {
  path = p;
  kind = kind;
  content = [];
  target = none;
  other_size = ℤ.pos 0;
  mode = mode;
  uid = d.uid;
  gid = d.gid;
  mtime = d.time;
  listable = true;
}

abbrev pub with_content : Text → Text → Inode → Disk → Disk
with_content p content n d = put_node p (record n { content = content; mtime = d.time }) d

unfoldable pub open_found : Text → ℕ → Option Inode → Exec Disk (Unit {0})
unfolding unix_mode
open_found p mode none = do
  reads (reach p)
  modify (λ d. put_node p (new_node p regular (unix_mode mode) d) d)
open_found p mode (some n) = do ensure (not (is_dir n.kind)) io; modify (with_content p [] n)

unfoldable pub open_at : Text → ℕ → Exec Disk (Unit {0})
unfolding open_found
open_at p mode = do there ← gets (node_at p); open_found p mode there

-- Root.OpenFile with O_WRONLY, O_CREATE and O_TRUNC, which follows a link: the path of the file that
-- has been opened.
unfoldable pub open_trunc : Text → ℕ → Exec Disk Text
unfolding open_at follow_links
open_trunc p mode = do syscall; q ← follow_links p; open_at q mode; pure q

abbrev pub bytes_written : Option ℕ → Text → Text
bytes_written none content = content
bytes_written (some k) content = take k content

abbrev pub fill : Text → Text → Option Inode → Disk → Disk
fill p content none d = d
fill p content (some n) d = with_content p content n d

-- Write to a file that has just been opened.
unfoldable pub write : Text → Text → Exec Disk (Unit {0})
write p content = do
  f ← next_fault
  modify (λ d. fill p (bytes_written f content) (node_at p d) d)
  lift (call_result f)

lies_under : Text → Inode → Bool
lies_under p n = has_prefix n.path (p ++ (b'/' ∷ []))

unfoldable pub any_under : Text → List Inode → Bool
unfolding lies_under has_prefix
any_under p [] = false
any_under p (n ∷ ns) = let rest = any_under p ns in if lies_under p n then true else rest

-- Root.Remove: a directory only if it is empty.
unfoldable pub remove : Text → Exec Disk (Unit {0})
unfolding any_under
remove p = do
  syscall
  n ← find p
  full ← gets (λ d. any_under p d.nodes)
  ensure (not (is_dir n.kind && full)) io
  modify (drop_node p)

abbrev pub is_dir_at : Option Inode → Bool
is_dir_at none = false
is_dir_at (some n) = is_dir n.kind

-- Root.Rename of what is no directory, which is all that the mirror renames.
unfoldable pub rename : Text → Text → Exec Disk (Unit {0})
rename p q = do
  syscall
  n ← find p
  ensure (not (is_dir n.kind)) io
  reads (reach q)
  target ← gets (node_at q)
  ensure (not (is_dir_at target)) io
  modify (λ d. put_node q n (drop_node p d))

-- Root.Chmod, which follows a link
unfoldable pub chmod : Text → ℕ → Exec Disk (Unit {0})
unfolding unix_mode follow_links
chmod p mode = do
  syscall
  q ← follow_links p
  n ← find q
  modify (put_node q (record n { mode = unix_mode mode }))

-- Linux takes setuid from what changes its owner, and setgid where the group may execute it.
unfoldable pub cleared : ℕ → ℕ
cleared mode =
    mode - mode / 2048 % 2 * 2048 - (if mode / 8 % 2 == 1 then mode / 1024 % 2 * 1024 else 0)

abbrev pub owned : ℕ → ℕ → Inode → Inode
owned uid gid n = record n {
  uid = uid;
  gid = gid;
  mode = if is_dir n.kind then n.mode else cleared n.mode;
}

-- Root.Lchown
unfoldable pub lchown : Text → ℕ → ℕ → Exec Disk (Unit {0})
unfolding cleared
lchown p uid gid = do syscall; n ← find p; modify (put_node p (owned uid gid n))

unfoldable pub make_dir : Text → ℕ → Error → Option Inode → Exec Disk (Unit {0})
unfolding mkdir_mode
make_dir p mode taken none = modify (λ d. put_node p (new_node p directory (mkdir_mode mode) d) d)
make_dir p mode taken (some n) = ensure (is_dir n.kind) taken

-- One directory of MkdirAll: it is made where it is missing.
unfoldable pub ensure_dir : Text → ℕ → Error → Exec Disk (Unit {0})
unfolding make_dir
ensure_dir p mode taken = do syscall; there ← gets (node_at p); make_dir p mode taken there

unfoldable pub ensure_dirs : List Text → ℕ → Exec Disk (Unit {0})
ensure_dirs [] mode = pure tt
ensure_dirs (q ∷ qs) mode = do ensure_dir q mode io; ensure_dirs qs mode

-- Root.MkdirAll: what stands at the path and is no directory is reported as ErrExist, what stands
-- above it as another error.
unfoldable pub mkdir_all : Text → ℕ → Exec Disk (Unit {0})
mkdir_all p mode = do ensure_dirs (ancestors p) mode; ensure_dir p mode exists
