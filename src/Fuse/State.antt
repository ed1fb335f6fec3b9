-- ===== src/Fuse/State.antt =====
-- internal/fusefs/fusefs.go: the errnos, the attributes of an entry, and calls of the tree, which is
-- the syncer.
use Prim.Native.Nat.{bit_or, bit_xor}
use distributed_configs_fs.Base.{
  ℕ, suc, ◌*◌, ◌/◌, ◌%◌, ◌^◌, ◌-◌, ◌+ℤ◌, wrap64, Bool, true, false, ℤ, pos, negsuc, Text, [], ◌∷◌,
  ◌++◌, ◌==◌, nat_eq, text_eq, if◌then◌else◌, codes,
}
use distributed_configs_fs.Core.Error.{Error, Result, ok, err, bad_path, too_large, not_found}
use distributed_configs_fs.Core.Entry.{Meta, kind_dir}
use distributed_configs_fs.Effect.{Exec}
use distributed_configs_fs.Syncer.State.{Service}

pub data Errno : Type 0 where
  enoent eio eperm efbig eisdir enotdir enotempty einval exdev : Errno

-- What a call of the mount answers: a value, or an errno; or it panics.
pub data Reply {ℓ} (A : Type ℓ) : Type ℓ where
  done : A → Reply A
  errno : Errno → Reply A
  panicked : Reply A

abbrev pub Fuse {ℓ} : Type ℓ → Type ℓ
Fuse A = Service → Reply A × Service

abbrev pub return : {A : Type 0} → A → Fuse A
return a s = (done a, s)

abbrev pub refuse : {A : Type 0} → Errno → Fuse A
refuse e s = (errno e, s)

-- `if !b { return e }`
abbrev pub check : Bool → Errno → Fuse (Unit {0})
check true e s = (done tt, s)
check false e s = (errno e, s)

module _ {A B : Type 0} where
  abbrev pub continue : Reply A → (A → Fuse B) → Fuse B
  continue (done a) f s = f a s
  continue (errno e) f s = (errno e, s)
  continue panicked f s = (panicked, s)

  infixl 10 ◌>>=◌ ◌>>◌
  abbrev pub ◌>>=◌ : Fuse A → (A → Fuse B) → Fuse B
  ◌>>=◌ m f s = continue (m s).0 f (m s).1

  abbrev pub ◌>>◌ : Fuse A → Fuse B → Fuse B
  m >> n = m >>= λ _. n

-- `errnoOf`, on an error.
unfoldable pub errno_of : Error → Errno
errno_of too_large = efbig
errno_of bad_path = einval
errno_of not_found = enoent
errno_of _ = eio

abbrev pub reply_of : {A : Type 0} → (Error → Errno) → Result A → Reply A
reply_of f (ok a) = done a
reply_of f (err e) = errno (f e)

-- A call of the tree whose error becomes the errno that `f` gives it.
abbrev pub call : {A : Type 0} → (Error → Errno) → Exec Service A → Fuse A
call f m s = (reply_of f (m s).0, (m s).1)

abbrev pub fnv_prime : ℕ
fnv_prime = 1099511628211

hash_bytes : ℕ → Text → ℕ
hash_bytes h [] = h
hash_bytes h (b ∷ bs) = hash_bytes (bit_xor h b * fnv_prime % 2 ^ 64) bs

-- The 64-bit FNV-1a hash of a path.
unfoldable pub ino_of : Text → ℕ
unfolding hash_bytes
ino_of p = hash_bytes 14695981039346656037 p

-- syscall.S_IFREG and syscall.S_IFDIR
abbrev pub s_ifreg : ℕ
s_ifreg = 0o100000

abbrev pub s_ifdir : ℕ
s_ifdir = 0o40000

pub record Attr : Type 0 where
  pub ino : ℕ
  pub size : ℕ
  pub mode : ℕ
  pub uid : ℕ
  pub gid : ℕ
  pub time : ℕ
  pub nlink : ℕ
  pub blocks : ℕ

abbrev type_bits : Meta → ℕ
type_bits m = if m.kind == kind_dir then s_ifdir else s_ifreg

-- uint64(n) of an int64
unfoldable pub to_uint64 : ℤ → ℕ
to_uint64 (pos n) = n % 2 ^ 64
to_uint64 (negsuc n) = 2 ^ 64 - 1 - n % 2 ^ 64

abbrev negate : ℕ → ℤ
negate k = if k == 0 then pos 0 else negsuc (k - 1)

-- `n / d` on int64 truncates towards zero.
unfoldable pub quotient : ℤ → ℕ → ℤ
quotient (pos n) d = pos (n / d)
quotient (negsuc n) d = negate (suc n / d)

unfoldable pub attr_of : Meta → Attr
unfolding ino_of to_uint64 quotient
attr_of m = record {
  ino = ino_of m.path;
  size = to_uint64 m.size;
  mode = bit_or m.mode (type_bits m);
  uid = m.uid;
  gid = m.gid;
  time = to_uint64 (quotient m.version.hlc.wall 1000000000);
  nlink = if m.kind == kind_dir then 2 else 1;
  blocks = to_uint64 (quotient (wrap64 (m.size +ℤ pos 511)) 512);
}

-- `child`: a node is its path, empty for the root of the mount.
unfoldable pub child : Text → Text → Text
child path name = if path == [] then name else path ++ (codes "/" ++ name)
