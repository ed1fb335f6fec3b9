-- ===== src/Mirror/Render/Applied.antt =====
-- `applyMeta` of internal/mirror/mirror.go: the mode of what is on disk afterwards.
use distributed_configs_fs.Base.{
  ℕ, ◌%◌, ◌/◌, ◌==◌, nat_eq, Bool-cases, arith, ◌≡◌, refl, ◌∙◌, ap, inl, inr, Bool, true, false,
  Text, text_eq, Option, some, if◌then◌else◌,
}
use distributed_configs_fs.Core.Error.{Result, ok, err, io, Result-cases}
use distributed_configs_fs.Core.Entry.{Meta, hash_content}
use distributed_configs_fs.Effect.{Exec, pure, ensure, modify}
use distributed_configs_fs.Effect.Runs.{
  Runs, Runs-then, Runs-weaken, Runs-pure, Runs-reads, Runs-modify, end_both,
}
use distributed_configs_fs.Mirror.Disk.{
  Inode, Disk, NodeKind, regular, directory, link, special, node_at, put_node, syscall, find, chmod,
  lchown, owned, cleared, unix_mode, is_dir, is_regular, follow_links,
}
use distributed_configs_fs.Mirror.Disk.Reads.{
  At, follow_regular, syscall_still, lstat-At, read_file-At,
}
use distributed_configs_fs.Mirror.Disk.Nodes.{node_at-put_same}
use distributed_configs_fs.Mirror.State.{Mirror, on_disk, result_of}
use distributed_configs_fs.Mirror.Render.{apply_meta, after_chown, read_local}

-- What stands at the path is a regular file whose content has the hash.
abbrev pub HasHash : (Text → Text) → Text → Text → Disk → Type 0
HasHash sum256 p hash d =
    (n : Inode) × (node_at p d ≡ some n)
    × (hash_content sum256 n.content ≡ hash)
    × (n.kind ≡ regular)

-- What stands at the path is a regular file with the content and the permission bits of the entry.
abbrev pub IsRendered : (Text → Text) → Meta → Disk → Type 0
IsRendered sum256 e d =
    (n : Inode) × (node_at e.path d ≡ some n)
    × (hash_content sum256 n.content ≡ e.hash)
    × (n.kind ≡ regular)
    × (n.mode % 512 ≡ e.mode % 512)

-- What package os and Linux make of a mode leaves the permission bits.
unix_mode-perm : (mode : ℕ) → unix_mode mode % 512 ≡ mode % 512
unfolding unix_mode
unix_mode-perm mode = omega arith

cleared-perm : (mode : ℕ) → cleared mode % 512 ≡ mode % 512
unfolding cleared
cleared-perm mode = elim (Bool-cases (mode / 8 % 2 == 1)) [
  | inl e ↦ rw e (omega arith)
  | inr e ↦ rw e (omega arith)
]

of_regular : (k : NodeKind) → is_regular k ≡ true → k ≡ regular
of_regular regular h = refl
of_regular directory h = cc h
of_regular link h = cc h
of_regular special h = cc h

module _ (sum256 : Text → Text) (p : Text) (old : Option Inode) where
  pub read_local-At :
      Runs
        (At p old)
        (read_local sum256 p)
        (λ h d.
          At p old d
          × ((n : Inode) × (old ≡ some n)
              × (hash_content sum256 n.content ≡ h)
              × (n.kind ≡ regular)))
        (At p old)
  unfolding read_local
  read_local-At = Runs-then _ _ (lstat-At p old) λ info. Runs-then _ _ (is_file info) λ v. record {
    ends = λ d h.
        (Runs-then _ _ (read_file-At p old info h.1 h.2) λ content.
            Runs-pure _ λ e k. (k.0, (info, h.1, ap (hash_content sum256) k.1, h.2))).ends
          d h.0;
  }
    where
      is_file :
          (info : Inode)
          → Runs
              (λ d. At p old d × (old ≡ some info))
              (ensure (is_regular info.kind) io)
              (λ u d. At p old d × (old ≡ some info) × (info.kind ≡ regular))
              (At p old)
      is_file info = record {
        ends = λ d h. elim (Bool-cases (is_regular info.kind)) [
          | inl b ↦ rw b (h.0, h.1, of_regular info.kind b)
          | inr b ↦ rw b h.0
        ];
      }

-- On the mirror's disk.
pub on_disk-Runs :
    {A : Type 0} {P E : Disk → Type 0} {Q : A → Disk → Type 0} (m : Exec Disk A)
    → Runs P m Q E
    → Runs (λ s. P s.disk) (on_disk m) (λ a s. Q a s.disk) (λ s. E s.disk)
on_disk-Runs m k = record {
  ends = λ s h.
      let j = k.ends s.disk h in
      elim (Result-cases (m s.disk).0) [
        | inl (a, f) ↦ rw f (rw f at j)
        | inr (x, f) ↦ rw f (rw f at j)
      ];
}

pub either-Runs :
    {A : Type 0} {P E : Mirror → Type 0} {Q : A → Mirror → Type 0} (b : Bool) {m n : Exec Mirror A}
    → (b ≡ true → Runs P m Q E)
    → (b ≡ false → Runs P n Q E)
    → Runs P (if b then m else n) Q E
either-Runs true k l = k refl
either-Runs false k l = l refl

unfoldable pub AnyEnd : Mirror → Type 0
AnyEnd s = Unit

pub forget :
    {A : Type 0} {P E : Mirror → Type 0} {Q : A → Mirror → Type 0} (m : Exec Mirror A)
    → Runs P m Q E
    → Runs P m Q AnyEnd
unfolding AnyEnd
forget m k = Runs-weaken m (λ a s h. h) (λ s h. tt) k

module _ (sum256 : Text → Text) (e : Meta) where
  abbrev pub Rendered : Disk → Type 0
  Rendered d = IsRendered sum256 e d

  abbrev pub Hashed : Disk → Type 0
  Hashed d = HasHash sum256 e.path e.hash d

  syscall-Hashed : Runs Hashed syscall (λ u. Hashed) Hashed
  unfolding node_at
  syscall-Hashed = syscall_still Hashed (λ d gs h. h)

  find-Hashed :
      Runs Hashed
        (find e.path)
        (λ n d. (hash_content sum256 n.content ≡ e.hash) × (n.kind ≡ regular))
        Hashed
  unfolding find
  find-Hashed = record { ends = λ d (n, f, c, k). rw f (c, k) }

  -- No link is followed where a regular file stands.
  follow-Hashed : Runs Hashed (follow_links e.path) (λ f d. Hashed d × (f ≡ e.path)) Hashed
  follow-Hashed = record {
    ends = λ d (n, f, c, k).
        (Runs-weaken (follow_links e.path) (λ g t h. ((n, h.0, c, k), h.1)) (λ t h. (n, h, c, k))
            (follow_regular e.path (some n) n refl k)).ends
          d f;
  }

  chmod-Rendered : Runs Hashed (chmod e.path e.mode) (λ u. Rendered) Hashed
  unfolding chmod
  chmod-Rendered = Runs-then _ _ syscall-Hashed λ u. Runs-then _ _ follow-Hashed λ f. record {
    ends = λ d h. rw h.1 (
        (Runs-then {R = λ v. Rendered} (find e.path)
            (λ n. modify (put_node e.path (record n { mode = unix_mode e.mode }))) find-Hashed
            λ n.
              Runs-modify _
                λ t k. (_, node_at-put_same e.path _ t, k.0, k.1, unix_mode-perm e.mode)).ends
          d h.0);
  }

  syscall-Rendered : Runs Rendered syscall (λ u. Rendered) Rendered
  unfolding node_at
  syscall-Rendered = syscall_still Rendered (λ d gs h. h)

  find-Rendered :
      Runs Rendered
        (find e.path)
        (λ n d.
          (hash_content sum256 n.content ≡ e.hash)
          × (n.kind ≡ regular)
          × (n.mode % 512 ≡ e.mode % 512))
        Rendered
  unfolding find
  find-Rendered = record { ends = λ d (n, f, c, k, m). rw f (c, k, m) }

  owned-perm : (n : Inode) → (owned e.uid e.gid n).mode % 512 ≡ n.mode % 512
  owned-perm n = elim (Bool-cases (is_dir n.kind)) [
    | inl b ↦ rw b refl
    | inr b ↦ rw b (cleared-perm n.mode)
  ]

  lchown-Rendered : Runs Rendered (lchown e.path e.uid e.gid) (λ u. Rendered) Rendered
  unfolding lchown
  lchown-Rendered = Runs-then _ _ syscall-Rendered λ u. Runs-then _ _ find-Rendered λ n.
      Runs-modify _
        λ d h. (_, node_at-put_same e.path (owned e.uid e.gid n) d, h.0, h.1, owned-perm n ∙ h.2)

  pub apply_meta-Rendered : Runs (λ s. Hashed s.disk) (apply_meta e) (λ u s. Rendered s.disk) AnyEnd
  unfolding apply_meta AnyEnd
  apply_meta-Rendered = Runs-then _ _ (forget _ (on_disk-Runs _ chmod-Rendered)) λ u.
      Runs-then _ _ (forget _ (Runs-reads _))
        λ can. Runs-then _ _ (chown can) λ r. Runs-modify _ (kept r)
    where
      kept :
          (r : Result (Unit {0})) (s : Mirror) → Rendered s.disk → Rendered (after_chown r s).disk
      kept (ok u) s h = h
      kept (err x) s h = h

      chown :
          (can : Bool)
          → Runs
              (λ s. Rendered s.disk)
              (if can then result_of (on_disk (lchown e.path e.uid e.gid)) else pure (ok tt))
              (λ r s. Rendered s.disk)
              AnyEnd
      chown true = record {
        ends = λ s h. end_both _ (lchown e.path e.uid e.gid s.disk) (lchown-Rendered.ends s.disk h);
      }
      chown false = Runs-pure _ λ s h. h
