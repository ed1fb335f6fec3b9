-- ===== src/Fuse/Handles.antt =====
-- internal/fusefs/fusefs.go: the handles of an open file.
pub mod Buffer
use distributed_configs_fs.Base.{
  ℕ, zero, suc, ◌+◌, ◌-◌, Bool, true, false, not, ◌&&◌, ◌||◌, ltb, leb, ℤ, pos, negsuc, ltz, wrap64,
  ◌%◌, ◌^◌, Text, List, [], ◌∷◌, ◌++◌, length, take, drop, if◌then◌else◌,
}
use distributed_configs_fs.Core.Error.{Result, ok, err}
use distributed_configs_fs.Effect.{Exec}
use distributed_configs_fs.Syncer.State.{Service, Config}
use distributed_configs_fs.Syncer.Local.{put_file}
use distributed_configs_fs.Fuse.State.{Errno, Reply, done, errno, panicked, efbig, errno_of}

pub record WriteHandle : Type 0 where
  pub path : Text
  pub buf : Text
  pub mode : ℕ
  pub uid : ℕ
  pub gid : ℕ
  pub dirty : Bool

-- `h.data[off:end]` for a read of `n` bytes; an offset past the end, or a negative one, reads nothing.
unfoldable pub read_at : Text → ℕ → ℤ → Text
read_at content n (negsuc k) = []
read_at content n (pos off) = if ltb (length content) off then [] else take n (drop off content)

-- A buffer made longer by zero bytes, as `make` and `copy` do.
unfoldable pub grow : ℕ → Text → Text
grow zero buf = buf
grow (suc n) [] = 0 ∷ grow n []
grow (suc n) (b ∷ buf) = b ∷ grow n buf

-- `copy(h.buf[off:], data)`, which copies as much as the buffer has room for.
unfoldable pub overwrite : ℕ → Text → Text → Text
overwrite off content buf =
    take off buf ++ (take (length buf - off) content ++ drop (off + length content) buf)

-- The buffer, made longer where a write ends past it.
unfoldable pub padded : ℤ → Text → Text
unfolding grow
padded (negsuc k) buf = buf
padded (pos end) buf = if ltb (length buf) end then grow end buf else buf

-- `writeHandle.Write` at an offset that is not negative, as the kernel sends it. The end of the
-- write is an int64; the slice of a buffer that is shorter than the offset panics.
unfoldable pub write : Config → Text → ℕ → WriteHandle → Reply ℕ × WriteHandle
unfolding padded overwrite
write cfg content off h =
    let end = wrap64 (pos (off + length content)) in
    let buf = padded end h.buf in
    if ltz cfg.max_file_size end
    then (errno efbig, h)
    else if ltb (length buf) off
    then (panicked, h)
    else (
      done (length content % 2 ^ 32),
      record h { buf = overwrite off content buf; dirty = true },
    )

unfoldable pub read_buffer : WriteHandle → ℕ → ℤ → Text
unfolding read_at
read_buffer h n off = read_at h.buf n off

abbrev flushed :
    WriteHandle → Result (Unit {0}) × Service → Reply (Unit {0}) × WriteHandle × Service
flushed h (ok _, s) = (done tt, record h { dirty = false }, s)
flushed h (err e, s) = (errno (errno_of e), h, s)

-- `Flush`
unfoldable pub flush :
    (Text → Text) → Config → WriteHandle → Service → Reply (Unit {0}) × WriteHandle × Service
unfolding put_file errno_of
flush sum256 cfg h s =
    if not h.dirty
    then (done tt, h, s)
    else flushed h (put_file sum256 cfg h.path h.buf h.mode h.uid h.gid s)
