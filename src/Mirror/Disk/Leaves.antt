-- ===== src/Mirror/Disk/Leaves.antt =====
-- Calls that leave what stands at a path alone, whether they succeed or fail: all calls on other
-- paths, except that a directory may be made where nothing was.
use distributed_configs_fs.Base.{
  ℕ, ◌≡◌, refl, sym, ◌≢◌, ◌⊎◌, inl, inr, Text, text_eq, List, [], ◌∷◌, All, Bool-cases, subst, not,
  ◌==◌, Option, none, some,
}
use distributed_configs_fs.Core.Error.{Error, Result, ok, err, exists, io, guard}
use distributed_configs_fs.Effect.{Exec, reads, modify, ◌>>=◌}
use distributed_configs_fs.Effect.Runs.{Ends, Runs, Runs-then, Runs-tests, Runs-reads, Runs-modify}
use distributed_configs_fs.Store.Table.{take_row}
use distributed_configs_fs.Store.Table.Every.{All-upsert, All-select}
use distributed_configs_fs.Mirror.Names.{ancestors}
use distributed_configs_fs.Mirror.Disk.{
  Inode, Disk, is_dir, directory, node_at, put_node, drop_node, next_outcome, next_fault, syscall,
  at_node, same_node, found_node, reach, follow_links, mkdir_mode, find, lstat, read_file, open_at,
  open_found, write, remove, rename, lchown, mkdir_all, ensure_dirs, ensure_dir, make_dir, fill,
  new_node,
}
use distributed_configs_fs.Mirror.Disk.Nodes.{
  node_at-put_other, node_at-put_same, node_at-drop_other,
}

next_outcome-cases :
    (fs : List (Option ℕ)) (d : Disk)
    → (f : Option ℕ) × (gs : List (Option ℕ)) × (next_outcome fs d ≡ (f, record d { faults = gs }))
next_outcome-cases [] d = (none, d.faults, refl)
next_outcome-cases (f ∷ fs) d = (f, fs, refl)

-- A call ends in some way and leaves the nodes as they are.
pub next_fault-cases :
    (d : Disk)
    → (f : Option ℕ) × (gs : List (Option ℕ)) × (next_fault d ≡ (ok f, record d { faults = gs }))
unfolding next_fault
next_fault-cases d = let (f, gs, e) = next_outcome-cases d.faults d in (f, gs, rw e refl)

-- The same node as before, or a directory where there was none.
abbrev pub IsSameOrMade : Option Inode → Option Inode → Type 0
IsSameOrMade old new =
    (new ≡ old) ⊎ ((old ≡ none) × ((n : Inode) × (new ≡ some n) × (n.kind ≡ directory)))

-- What is asked of the target of every node.
abbrev pub Targets : (Option Text → Type 0) → Disk → Type 0
Targets U d = All (λ (n : Inode). U n.target) d.nodes

abbrev pub AtTarget : (Option Text → Type 0) → Option Inode → Type 0
AtTarget U none = Unit
AtTarget U (some n) = U n.target

pub rows-AtTarget :
    (U : Option Text → Type 0) (p : Text) (ns : List Inode)
    → All (λ (n : Inode). U n.target) ns
    → AtTarget U (take_row (at_node p) ns)
unfolding take_row
rows-AtTarget U p [] h = tt
rows-AtTarget U p (n ∷ ns) h = elim (Bool-cases (n.path == p)) [
  | inl e ↦ rw e h.0
  | inr e ↦ rw e (rows-AtTarget U p ns h.1)
]

pub node_at-AtTarget :
    (U : Option Text → Type 0) (p : Text) (d : Disk) → Targets U d → AtTarget U (node_at p d)
unfolding node_at
node_at-AtTarget U p d h = rows-AtTarget U p d.nodes h

-- What is asked of targets holds of no target.
module _ (q : Text) (old : Option Inode) (U : Option Text → Type 0) (fresh : U none) where
  abbrev pub Same : Disk → Type 0
  Same d = IsSameOrMade old (node_at q d) × Targets U d

  -- A method that leaves the path as it is, on a return and on an error.
  abbrev pub Leaves : {A : Type 0} → Exec Disk A → Type 0
  Leaves m = Runs Same m (λ a. Same) Same

  abbrev pub Finds : Inode → Disk → Type 0
  Finds n d = Same d × U n.target

  pub Leaves-reads : {A : Type 0} (f : Disk → Result A) → Leaves (reads f)
  Leaves-reads f = Runs-reads f

  pub Leaves-modify : (f : Disk → Disk) → ((d : Disk) → Same d → Same (f d)) → Leaves (modify f)
  Leaves-modify f k = Runs-modify f k

  pub Leaves-then :
      {A B : Type 0} (m : Exec Disk A) (next : A → Exec Disk B)
      → Leaves m
      → ((a : A) → Leaves (next a))
      → Leaves (m >>= next)
  Leaves-then m next k l = Runs-then m next k l

  pub Leaves-next_fault : Leaves next_fault
  unfolding node_at
  Leaves-next_fault = record { ends = λ d h. let (f, gs, e) = next_fault-cases d in rw e h }

  pub Leaves-syscall : Leaves syscall
  unfolding syscall
  Leaves-syscall = Leaves-then _ _ Leaves-next_fault λ f. Leaves-reads _

  found-Finds :
      (r : Result (Unit {0})) (o : Option Inode) (d : Disk)
      → Same d
      → AtTarget U o
      → Ends Finds Same (found_node r o, d)
  found-Finds r (some n) d h u = (h, u)
  found-Finds (ok u) none d h k = h
  found-Finds (err x) none d h k = h

  pub find-Finds : (p : Text) → Runs Same (find p) Finds Same
  unfolding find
  find-Finds p = record {
    ends = λ d h. found-Finds (reach p d) (node_at p d) d h (node_at-AtTarget U p d h.1);
  }

  pub Leaves-find : (p : Text) → Leaves (find p)
  unfolding find
  Leaves-find p = Leaves-reads _

  pub Leaves-lstat : (p : Text) → Leaves (lstat p)
  unfolding lstat
  Leaves-lstat p = Leaves-then _ _ Leaves-syscall λ u. Leaves-find p

  pub Leaves-read_file : (p : Text) → Leaves (read_file p)
  unfolding read_file follow_links
  Leaves-read_file p = Leaves-then _ _ Leaves-syscall λ u.
      Leaves-then _ _ (Leaves-reads _) λ r.
        Leaves-then _ _ (Leaves-find r) λ n. Leaves-then _ _ (Leaves-reads _) λ v. Leaves-reads _

  put_other :
      (p : Text) (n : Inode) (d : Disk) → p ≢ q → U n.target → Same d → Same (put_node p n d)
  unfolding put_node
  put_other p n d h u s = (
    subst (IsSameOrMade old) (sym (node_at-put_other q p n d h)) s.0,
    All-upsert _ same_node (record n { path = p }) d.nodes u s.1,
  )

  drop_other : (p : Text) (d : Disk) → p ≢ q → Same d → Same (drop_node p d)
  unfolding drop_node
  drop_other p d h s = (
    subst (IsSameOrMade old) (sym (node_at-drop_other q p d h)) s.0,
    All-select _ (λ n. not (n.path == p)) d.nodes s.1,
  )

  module _ (p : Text) (other : p ≢ q) where
    open_found-Leaves :
        (mode : ℕ) (there : Option Inode) (d : Disk)
        → AtTarget U there
        → Same d
        → Ends (λ u. Same) Same (open_found p mode there d)
    unfolding open_found
    open_found-Leaves mode none d k s =
        (Leaves-then _ _ (Leaves-reads _)
            λ u. Leaves-modify _ λ e t. put_other p _ e other fresh t).ends
          d s
    open_found-Leaves mode (some n) d k s =
        (Leaves-then _ _ (Leaves-reads _)
            λ u. Leaves-modify _ λ e t. put_other p _ e other k t).ends
          d s

    pub Leaves-open_at : (mode : ℕ) → Leaves (open_at p mode)
    unfolding open_at ◌>>=◌
    Leaves-open_at mode = record {
      ends = λ d s. open_found-Leaves mode (node_at p d) d (node_at-AtTarget U p d s.1) s;
    }

    fill_other :
        (content : Text) (there : Option Inode) (d : Disk)
        → AtTarget U there
        → Same d
        → Same (fill p content there d)
    fill_other content none d k s = s
    fill_other content (some n) d k s = put_other p _ d other k s

    pub Leaves-write : (content : Text) → Leaves (write p content)
    unfolding write
    Leaves-write content = Leaves-then _ _ Leaves-next_fault λ f.
        Leaves-then _ _
          (Leaves-modify _ λ d s. fill_other _ (node_at p d) d (node_at-AtTarget U p d s.1) s)
          λ u. Leaves-reads _

    pub Leaves-remove : Leaves (remove p)
    unfolding remove
    Leaves-remove = Leaves-then _ _ Leaves-syscall λ u. Leaves-then _ _ (Leaves-find p) λ n.
        Leaves-then _ _ (Leaves-reads _) λ full.
          Leaves-then _ _ (Leaves-reads _) λ v. Leaves-modify _ λ d s. drop_other p d other s

    -- A test between what is found and what is done with it.
    Finds-test :
        {A : Type 0} (n : Inode) (f : Disk → Result A)
        → Runs (Finds n) (reads f) (λ a. Finds n) Same
    Finds-test n f = Runs-tests f λ d h. h.0

    pub Leaves-rename : (p' : Text) → p' ≢ q → Leaves (rename p p')
    unfolding rename
    Leaves-rename p' other' = Leaves-then _ _ Leaves-syscall λ u. Runs-then _ _ (find-Finds p) λ n.
        Runs-then _ _ (Finds-test n _) λ v. Runs-then _ _ (Finds-test n _) λ w.
          Runs-then _ _ (Finds-test n _) λ target. Runs-then _ _ (Finds-test n _) λ x.
            Runs-modify _
              λ d h. put_other p' n (drop_node p d) other' h.1 (drop_other p d other h.0)

    pub Leaves-chmod_at :
        (mode : ℕ) → Leaves (find p >>= λ n. modify (put_node p (record n { mode = mode })))
    Leaves-chmod_at mode =
        Runs-then _ _ (find-Finds p) λ n. Runs-modify _ λ d h. put_other p _ d other h.1 h.0

    pub Leaves-lchown : (uid gid : ℕ) → Leaves (lchown p uid gid)
    unfolding lchown
    Leaves-lchown uid gid =
        Leaves-then _ _ Leaves-syscall
          λ u. Runs-then _ _ (find-Finds p) λ n. Runs-modify _ λ d h. put_other p _ d other h.1 h.0

  made_here :
      (p : Text) (n : Inode) (d : Disk)
      → n.kind ≡ directory
      → U n.target
      → node_at p d ≡ none
      → Same d
      → Same (put_node p n d)
  unfolding put_node
  made_here p n d k u e s = elim (text_eq.dec p q) [
    | no h ↦ put_other p n d h u s
    | yes h ↦
        let gone : old ≡ none = elim s.0 [ inl f ↦ cc | inr f ↦ f.0 ] in
        (
          inr (
            gone,
            (
              record n { path = p },
              subst (λ r. node_at r (put_node p n d) ≡ some (record n { path = p })) h
                  (node_at-put_same p n d),
              k,
            ),
          ),
          All-upsert _ same_node (record n { path = p }) d.nodes u s.1,
        )
  ]

  made_there :
      (p : Text) (mode : ℕ) (taken : Error) (there : Option Inode) (d : Disk)
      → node_at p d ≡ there
      → Same d
      → Ends (λ u. Same) Same (make_dir p mode taken there d)
  unfolding make_dir
  made_there p mode taken none d e s =
      made_here p (new_node p directory (mkdir_mode mode) d) d refl fresh e s
  made_there p mode taken (some n) d e s =
      (Leaves-reads (λ x. guard (is_dir n.kind) taken)).ends d s

  Leaves-ensure_dir : (p : Text) (mode : ℕ) (taken : Error) → Leaves (ensure_dir p mode taken)
  unfolding ensure_dir ◌>>=◌
  Leaves-ensure_dir p mode taken =
      Leaves-then _ _ Leaves-syscall
        λ u. record { ends = λ d s. made_there p mode taken (node_at p d) d refl s }

  Leaves-ensure_dirs : (ps : List Text) (mode : ℕ) → Leaves (ensure_dirs ps mode)
  unfolding ensure_dirs
  Leaves-ensure_dirs [] mode = Leaves-reads _
  Leaves-ensure_dirs (p ∷ ps) mode =
      Leaves-then _ _ (Leaves-ensure_dir p mode io) λ u. Leaves-ensure_dirs ps mode

  pub Leaves-mkdir_all : (p : Text) (mode : ℕ) → Leaves (mkdir_all p mode)
  unfolding mkdir_all
  Leaves-mkdir_all p mode =
      Leaves-then _ _ (Leaves-ensure_dirs (ancestors p) mode) λ u. Leaves-ensure_dir p mode exists
