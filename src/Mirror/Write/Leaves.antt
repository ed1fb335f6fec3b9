-- ===== src/Mirror/Write/Leaves.antt =====
-- The paths that writeAtomic of internal/mirror/mirror.go leaves alone.
use distributed_configs_fs.Base.{
  ℕ, codes, ◌==◌, if◌then◌else◌, ◌≢◌, inl, inr, Text, text_eq, Option, none, Bool, true, false,
}
use distributed_configs_fs.Core.Error.{Result-cases}
use distributed_configs_fs.Effect.{Exec, pure}
use distributed_configs_fs.Effect.Runs.{Runs, Runs-then, end_any, end_both}
use distributed_configs_fs.Mirror.Names.{tmp_name, dir_name}
use distributed_configs_fs.Mirror.Disk.{Inode, Disk, open_trunc, remove, mkdir_all}
use distributed_configs_fs.Mirror.Disk.Leaves.{
  Same, Leaves, Leaves-reads, Leaves-then, Leaves-syscall, Leaves-write, Leaves-remove,
  Leaves-rename, Leaves-mkdir_all,
}
use distributed_configs_fs.Mirror.Disk.Links.{Unled, Unled-none, Spares, open_trunc-Apart}
use distributed_configs_fs.Mirror.Write.{make_all, or_remove, fill_tmp, write_atomic}

module _ (q : Text) (old : Option Inode) (U : Option Text → Type 0) (fresh : U none) where
  abbrev Still : Disk → Type 0
  Still = Same q old U fresh

  abbrev Stays : {A : Type 0} → Exec Disk A → Type 0
  Stays = Leaves q old U fresh

  pub Leaves-make_all : (p : Text) (mode : ℕ) → Stays (make_all p mode)
  unfolding make_all
  Leaves-make_all p mode = record {
    ends = λ d s.
        end_any Still (make_all p mode d)
          (end_both _ (mkdir_all p mode d) ((Leaves-mkdir_all q old U fresh p mode).ends d s));
  }

  pub Leaves-parents : (dir : Text) (b : Bool) → Stays (if b then pure tt else make_all dir 0o755)
  Leaves-parents dir true = Leaves-reads q old U fresh _
  Leaves-parents dir false = Leaves-make_all dir 0o755

  pub Leaves-or_remove :
      (tmp : Text) (step : Exec Disk (Unit {0})) → tmp ≢ q → Stays step → Stays (or_remove tmp step)
  unfolding or_remove
  Leaves-or_remove tmp step other k = record {
    ends = λ d s.
        let h = end_both _ (step d) (k.ends d s) in
        elim (Result-cases (step d).0) [
          | inl (a, e) ↦ rw e h
          | inr (x, e) ↦ rw e (
              end_both _ (remove tmp (step d).1) ((Leaves-remove q old U fresh tmp other).ends _ h))
        ];
  }

  -- Filling the scratch file, if what is opened stands elsewhere.
  Leaves-fill_tmp :
      {P : Disk → Type 0} (tmp content : Text) (mode : ℕ)
      → tmp ≢ q
      → Runs P (open_trunc tmp mode) (λ f d. Still d × (f ≢ q)) Still
      → Runs P (fill_tmp tmp content mode) (λ u. Still) Still
  unfolding fill_tmp
  Leaves-fill_tmp tmp content mode other opens = Runs-then _ _ opens λ f. record {
    ends = λ d h.
        (Leaves-then q old U fresh _ _
            (Leaves-or_remove tmp _ other (Leaves-write q old U fresh f h.1 content))
            λ v.
              Leaves-then q old U fresh _ _
                (Leaves-or_remove tmp _ other (Leaves-syscall q old U fresh))
                λ w. Leaves-or_remove tmp _ other (Leaves-syscall q old U fresh)).ends
          d h.0;
  }

  -- A write leaves every path alone but its own and those that it opens.
  pub writes-Leaves :
      {O P : Disk → Type 0} (p content : Text) (mode : ℕ)
      → p ≢ q
      → tmp_name p ≢ q
      → Runs O
          (if dir_name p == codes "." then pure tt else make_all (dir_name p) 0o755)
          (λ u. P)
          Still
      → Runs P (open_trunc (tmp_name p) mode) (λ f d. Still d × (f ≢ q)) Still
      → Runs O (write_atomic p content mode) (λ u. Still) Still
  unfolding write_atomic
  writes-Leaves p content mode other other' makes opens = Runs-then _ _ makes λ u.
      Runs-then _ _ (Leaves-fill_tmp (tmp_name p) content mode other' opens) λ v.
        Leaves-or_remove (tmp_name p) _ other'
          (Leaves-rename q old U fresh (tmp_name p) other' p other)

-- A write leaves alone a path to which no link leads.
pub Leaves-write_atomic :
    (q : Text) (old : Option Inode) (p content : Text) (mode : ℕ)
    → p ≢ q
    → tmp_name p ≢ q
    → Spares q old (write_atomic p content mode)
Leaves-write_atomic q old p content mode other other' =
    writes-Leaves q old (Unled q) (Unled-none q) p content mode other other'
      (Leaves-parents q old (Unled q) (Unled-none q) (dir_name p) _)
      (open_trunc-Apart q old (tmp_name p) mode other')
