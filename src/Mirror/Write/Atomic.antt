-- ===== src/Mirror/Write/Atomic.antt =====
-- writeAtomic of internal/mirror/mirror.go, whatever system call fails.
use distributed_configs_fs.Base.{
  ℕ, ◌≡◌, refl, sym, ◌∙◌, subst, if◌then◌else◌, ◌≢◌, ◌⊎◌, inl, inr, Text, List, text_eq, Option,
  none, some, Bool, [], ◌∷◌, All,
}
use distributed_configs_fs.Core.Error.{Result-cases}
use distributed_configs_fs.Effect.{Exec, pure, ◌>>=◌}
use distributed_configs_fs.Effect.Runs.{
  Ends, Runs, Runs-then, Runs-weaken, Runs-both, Runs-tests, Runs-modify, Runs-pure, end_any,
  end_both,
}
use distributed_configs_fs.Mirror.Names.{tmp_name, dir_name}
use distributed_configs_fs.Mirror.Disk.{
  Inode, Disk, regular, directory, node_at, at_node, drop_node, syscall, find, reach, call_result,
  follow_links, follow, led_to, open_trunc, open_at, open_found, write, remove, rename, fill,
  bytes_written,
}
use distributed_configs_fs.Mirror.Disk.Nodes.{node_at-put_same}
use distributed_configs_fs.Mirror.Disk.Leaves.{
  IsSameOrMade, Same, Leaves, Leaves-syscall, Leaves-open_at, Leaves-write, Leaves-remove,
  next_fault-cases,
}
use distributed_configs_fs.Mirror.Disk.Reads.{syscall_still}
use distributed_configs_fs.Store.Table.{take_row}
use distributed_configs_fs.Mirror.Write.{make_all, or_remove, fill_tmp, write_atomic}
use distributed_configs_fs.Mirror.Write.Leaves.{Leaves-parents, Leaves-or_remove, writes-Leaves}

-- What stands at the path is a regular file with the content.
abbrev pub Holds : Text → Text → Disk → Type 0
Holds p content d =
    (n : Inode) × (node_at p d ≡ some n) × (n.content ≡ content) × (n.kind ≡ regular)

-- Nothing stands there but, if anything, a regular file or a directory.
abbrev pub IsPlain : Option Inode → Type 0
IsPlain none = Unit
IsPlain (some n) = (n.kind ≡ regular) ⊎ (n.kind ≡ directory)

-- What is true of a disk after a call that fails: nothing in particular.
abbrev Any : Disk → Type 0
Any d = Unit

abbrev Present : Text → Disk → Type 0
Present p d = (n : Inode) × (node_at p d ≡ some n) × (n.kind ≡ regular)

-- Nothing is asked of the targets of links.
abbrev AnyTarget : Option Text → Type 0
AnyTarget t = Unit

any_targets : (ns : List Inode) → All (λ (n : Inode). AnyTarget n.target) ns
any_targets [] = tt
any_targets (n ∷ ns) = (tt, any_targets ns)

made-IsPlain : (old new : Option Inode) → IsPlain old → IsSameOrMade old new → IsPlain new
made-IsPlain old new h (inl e) = subst IsPlain (sym e) h
made-IsPlain old none h (inr (gone, (n, e, k))) = tt
made-IsPlain old (some m) h (inr (gone, (n, e, k))) = let same : m ≡ n = cc e in inr (rw same k)

not_led : (o : Option Inode) → IsPlain o → led_to o ≡ none
unfolding led_to
not_led none h = refl
not_led (some n) (inl e) = rw e refl
not_led (some n) (inr e) = rw e refl

syscall-Any : Runs Any syscall (λ u. Any) Any
syscall-Any = record { ends = λ d h. end_any Any (syscall d) tt }

module _ (tmp content : Text) where
  abbrev Plain : Disk → Type 0
  Plain d = IsPlain (node_at tmp d)

  or_remove-Runs :
      {P Q : Disk → Type 0} (step : Exec Disk (Unit {0}))
      → Runs P step (λ u. Q) Any
      → Runs P (or_remove tmp step) (λ u. Q) Any
  unfolding or_remove
  or_remove-Runs step k = record {
    ends = λ d s.
        let h = k.ends d s in
        elim (Result-cases (step d).0) [ inl (a, e) ↦ rw e (rw e at h) | inr (x, e) ↦ rw e tt ];
  }

  opened-Present :
      (mode : ℕ) (there : Option Inode) (d : Disk)
      → IsPlain there
      → Ends (λ u. Present tmp) Any (open_found tmp mode there d)
  unfolding open_found ◌>>=◌
  opened-Present mode none d h = elim (Result-cases (reach tmp d)) [
    | inl (u, e) ↦ rw e (_, node_at-put_same tmp _ d, refl)
    | inr (x, e) ↦ rw e tt
  ]
  opened-Present mode (some n) d (inl k) = rw k (_, node_at-put_same tmp _ d, refl)
  opened-Present mode (some n) d (inr k) = rw k tt

  syscall-Holds : Runs (Holds tmp content) syscall (λ u. Holds tmp content) Any
  unfolding node_at
  syscall-Holds =
      Runs-weaken _ (λ u d h. h) (λ d h. tt) (syscall_still (Holds tmp content) (λ d gs h. h))

  filled :
      (f : Option ℕ) (d e : Disk)
      → Present tmp d
      → Ends
          (λ u. Holds tmp content)
          Any
          (call_result f, fill tmp (bytes_written f content) (node_at tmp d) e)
  filled none d e (n, h, k) = rw h (_, node_at-put_same tmp _ e, refl, k)
  filled (some k) d e h = tt

  write-Holds : Runs (Present tmp) (write tmp content) (λ u. Holds tmp content) Any
  unfolding write node_at ◌>>=◌
  write-Holds = record {
    ends = λ d h.
        let (f, gs, e) = next_fault-cases d in rw e (filled f d (record d { faults = gs }) h);
  }

  module _ (q : Text) (old : Option Inode) (other : tmp ≢ q) where
    abbrev Around : Disk → Type 0
    Around = Same q old AnyTarget tt

    abbrev AroundPlain : Disk → Type 0
    AroundPlain d = Around d × Plain d

    parents-AroundPlain :
        (dir : Text) (b : Bool)
        → Runs AroundPlain (if b then pure tt else make_all dir 0o755) (λ u. AroundPlain) Around
    parents-AroundPlain dir b =
        Runs-weaken _ (λ u d h. h) (λ d h. h.0)
          (Runs-both _ (Leaves-parents q old AnyTarget tt dir b) (record {
            ends = λ d h.
                let m = if b then pure tt else make_all dir 0o755 in
                end_any Plain (m d) (
                  made-IsPlain (node_at tmp d) _ h
                    (end_both _ (m d) (
                      (Leaves-parents tmp (node_at tmp d) AnyTarget tt dir b).ends d
                        (inl refl, any_targets d.nodes))).0);
          }))

    follow-AroundPlain :
        Runs AroundPlain (follow_links tmp) (λ f d. AroundPlain d × (f ≡ tmp)) Around
    unfolding follow_links follow node_at
    follow-AroundPlain = record {
      ends = λ d h.
          let stays : led_to (take_row (at_node tmp) d.nodes) ≡ none = not_led _ h.1 in
          rw stays (h, refl);
    }

    open_at-Present :
        (mode : ℕ) → Runs AroundPlain (open_at tmp mode) (λ u d. Around d × Present tmp d) Around
    unfolding open_at ◌>>=◌
    open_at-Present mode =
        Runs-weaken _ (λ u d h. h) (λ d h. h.0)
          (Runs-both _ (Leaves-open_at q old AnyTarget tt tmp other mode)
            (record { ends = λ d h. opened-Present mode (node_at tmp d) d h }))

    -- The scratch file is opened, and nothing else.
    open_trunc-Present :
        (mode : ℕ)
        → Runs AroundPlain
            (open_trunc tmp mode)
            (λ f d. (Around d × Present tmp d) × (f ≡ tmp))
            Around
    unfolding open_trunc node_at
    open_trunc-Present mode =
        Runs-then _ _
          (Runs-weaken _ (λ u d h. h) (λ d h. h.0) (syscall_still AroundPlain (λ d gs h. h)))
          λ u. Runs-then _ _ follow-AroundPlain λ f. record {
            ends = λ d h. rw h.1 (
                (Runs-then {R = λ g e. (Around e × Present tmp e) × (g ≡ tmp)} (open_at tmp mode)
                    (λ v. pure tmp) (open_at-Present mode) λ v. Runs-pure tmp λ e k. (k, refl)).ends
                  d h.0);
          }

    ready_step :
        {P Q : Disk → Type 0} (step : Exec Disk (Unit {0}))
        → Leaves q old AnyTarget tt step
        → Runs P step (λ u. Q) Any
        → Runs (λ d. Around d × P d) (or_remove tmp step) (λ u d. Around d × Q d) Around
    ready_step step k l =
        Runs-weaken _ (λ u d h. h) (λ d h. h.0)
          (Runs-both _ (Leaves-or_remove q old AnyTarget tt tmp step other k)
            (or_remove-Runs step l))

    fill_tmp-Ready :
        (mode : ℕ)
        → Runs AroundPlain
            (fill_tmp tmp content mode)
            (λ u d. Around d × Holds tmp content d)
            Around
    unfolding fill_tmp
    fill_tmp-Ready mode = Runs-then _ _ (open_trunc-Present mode) λ f. record {
      ends = λ d h. rw h.1 (
          (Runs-then _ _
              (ready_step (write tmp content) (Leaves-write q old AnyTarget tt tmp other content)
                write-Holds)
              λ v.
                Runs-then _ _ (ready_step syscall (Leaves-syscall q old AnyTarget tt) syscall-Holds)
                  λ w. ready_step syscall (Leaves-syscall q old AnyTarget tt) syscall-Holds).ends
            d h.0);
    }

module _ (p tmp content : Text) (old : Option Inode) (other : tmp ≢ p) where
  abbrev AtOld : Disk → Type 0
  AtOld = Same p old AnyTarget tt

  abbrev Ready : Disk → Type 0
  Ready d = AtOld d × Holds tmp content d

  syscall-Ready : Runs Ready syscall (λ u. Ready) AtOld
  syscall-Ready =
      Runs-weaken _ (λ u d h. h) (λ d h. h.0)
        (Runs-both _ (Leaves-syscall p old AnyTarget tt) (syscall-Holds tmp content))

  abbrev Found : Inode → Disk → Type 0
  Found n d = AtOld d × ((n.content ≡ content) × (n.kind ≡ regular))

  find-Ready : Runs Ready (find tmp) Found AtOld
  unfolding find
  find-Ready = record { ends = λ d (s, (n, e, c, k)). rw e (s, (c, k)) }

  rename-Holds : Runs Ready (rename tmp p) (λ u. Holds p content) AtOld
  unfolding rename
  rename-Holds = Runs-then _ _ syscall-Ready λ u. Runs-then _ _ find-Ready λ n.
      Runs-then _ _ (Runs-tests _ λ d h. h.0) λ v. Runs-then _ _ (Runs-tests _ λ d h. h.0) λ w.
        Runs-then _ _ (Runs-tests _ λ d h. h.0) λ target.
          Runs-then _ _ (Runs-tests _ λ d h. h.0)
            λ x. Runs-modify _ λ d h. (_, node_at-put_same p n (drop_node tmp d), h.1.0, h.1.1)

  renamed : Runs Ready (or_remove tmp (rename tmp p)) (λ u. Holds p content) AtOld
  unfolding or_remove
  renamed = record {
    ends = λ d s.
        let h = rename-Holds.ends d s in
        elim (Result-cases (rename tmp p d).0) [
          | inl (a, e) ↦ rw e (rw e at h)
          | inr (x, e) ↦ rw e (
              end_both _ (remove tmp (rename tmp p d).1)
                ((Leaves-remove p old AnyTarget tt tmp other).ends _ (rw e at h)))
        ];
  }

module _ (p content : Text) (mode : ℕ) (d : Disk) where
  pub write_atomic-IsAtomic :
      (q : Text)
      → tmp_name p ≢ p
      → tmp_name p ≢ q
      → IsPlain (node_at (tmp_name p) d)
      → let end = write_atomic p content mode d in
        Ends (λ u. Holds p content) (λ e. IsSameOrMade (node_at p d) (node_at p e)) end
        × ((q ≡ p) ⊎ IsSameOrMade (node_at q d) (node_at q end.1))
  unfolding write_atomic
  write_atomic-IsAtomic q other other' plain = (
    (Runs-weaken _ (λ u e h. h) (λ e h. h.0)
          (Runs-then _ _
            (parents-AroundPlain (tmp_name p) content p (node_at p d) other (dir_name p) _)
            λ u.
              Runs-then _ _ (fill_tmp-Ready (tmp_name p) content p (node_at p d) other mode)
                λ v. renamed p (tmp_name p) content (node_at p d) other)).ends
        d ((inl refl, any_targets d.nodes), plain),
    elim (text_eq.dec q p) [
      | yes e ↦ inl e
      | no n ↦
          inr
            (end_both _ (write_atomic p content mode d) (
              (writes-Leaves q (node_at q d) AnyTarget tt p content mode (λ e. n (sym e)) other'
                  (parents-AroundPlain (tmp_name p) content q (node_at q d) other' (dir_name p) _)
                  (Runs-weaken _ (λ f e h. (h.0.0, λ g. other' (sym h.1 ∙ g))) (λ e h. h)
                    (open_trunc-Present (tmp_name p) content q (node_at q d) other' mode))).ends
                d ((inl refl, any_targets d.nodes), plain))).0
    ],
  )
