-- ===== src/Mirror/Write.antt =====
-- writeAtomic of internal/mirror/mirror.go.
pub mod Leaves
pub mod Atomic
use distributed_configs_fs.Base.{Text, codes, ℕ, not, ◌==◌, text_eq, if◌then◌else◌}
use distributed_configs_fs.Core.Error.{Error, Result, ok, err, exists, on_result}
use distributed_configs_fs.Effect.{Exec, pure, reads, ◌>>=◌, ◌>>◌}
use distributed_configs_fs.Mirror.Names.{dir_name, tmp_name}
use distributed_configs_fs.Mirror.Disk.{Disk, syscall, mkdir_all, open_trunc, write, remove, rename}

-- `err != nil && !errors.Is(err, fs.ErrExist)` of what MkdirAll returns.
abbrev pub unless_exists : Result (Unit {0}) → Result (Unit {0})
unless_exists (ok u) = ok u
unless_exists (err exists) = ok tt
unless_exists (err e) = err e

unfoldable pub make_all : Text → ℕ → Exec Disk (Unit {0})
make_all p mode d = (unless_exists (mkdir_all p mode d).0, (mkdir_all p mode d).1)

-- A step whose failure removes the scratch file.
unfoldable pub or_remove : Text → Exec Disk (Unit {0}) → Exec Disk (Unit {0})
or_remove tmp step d =
    on_result (λ code. (err code, (remove tmp (step d).1).1)) (λ u. (ok u, (step d).1)) (step d).0

-- Writing, syncing and closing the scratch file.
unfoldable pub fill_tmp : Text → Text → ℕ → Exec Disk (Unit {0})
fill_tmp tmp content mode = do
  file ← open_trunc tmp mode
  or_remove tmp (write file content)
  or_remove tmp syscall
  or_remove tmp syscall

unfoldable pub write_atomic : Text → Text → ℕ → Exec Disk (Unit {0})
unfolding dir_name tmp_name
write_atomic p content mode = do
  if dir_name p == codes "." then pure tt else make_all (dir_name p) 0o755
  fill_tmp (tmp_name p) content mode
  or_remove (tmp_name p) (rename (tmp_name p) p)
