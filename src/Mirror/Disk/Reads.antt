-- ===== src/Mirror/Disk/Reads.antt =====
-- Calls that read a path of the directory: what they return is what stands there.
use distributed_configs_fs.Base.{ℕ, ◌≡◌, refl, sym, ◌∙◌, ap, Text, List, Option, none, some}
use distributed_configs_fs.Core.Error.{Result, ok, err}
use distributed_configs_fs.Effect.{◌>>=◌}
use distributed_configs_fs.Effect.Runs.{Ends, Runs, Runs-then, Runs-pure, Runs-tests, end_any}
use distributed_configs_fs.Store.Table.{take_row}
use distributed_configs_fs.Mirror.Disk.{
  Inode, Disk, regular, led_to, at_node, follow_links, follow, node_at, syscall, find, lstat,
  read_file, found_node, reach,
}
use distributed_configs_fs.Mirror.Disk.Leaves.{next_fault-cases}

-- A predicate of disks that only looks at the nodes.
module _ (P : Disk → Type 0)
    (still : (d : Disk) (gs : List (Option ℕ)) → P d → P (record d { faults = gs })) where
  pub syscall_still : Runs P syscall (λ u. P) P
  unfolding syscall ◌>>=◌
  syscall_still = record {
    ends = λ d h.
        let (f, gs, e) = next_fault-cases d in
        rw e (end_any P (_, record d { faults = gs }) (still d gs h));
  }

not_led : (n : Inode) → n.kind ≡ regular → led_to (some n) ≡ none
unfolding led_to
not_led n k = rw k refl

module _ (p : Text) (old : Option Inode) where
  abbrev pub At : Disk → Type 0
  At d = node_at p d ≡ old

  -- No link is followed where a regular file stands.
  pub follow_regular :
      (n : Inode)
      → old ≡ some n
      → n.kind ≡ regular
      → Runs At (follow_links p) (λ q d. At d × (q ≡ p)) At
  unfolding follow_links follow node_at
  follow_regular n o k = record {
    ends = λ d h.
        let found_it : take_row (at_node p) d.nodes ≡ some n = h ∙ o in
        let stays : led_to (some n) ≡ none = not_led n k in
        rw (found_it, stays) (rw found_it (sym o), refl);
  }

  pub syscall-At : Runs At syscall (λ u. At) At
  unfolding node_at
  syscall-At = syscall_still At (λ d gs h. h)

  found :
      (r : Result (Unit {0})) (o : Option Inode) (d : Disk)
      → At d
      → old ≡ o
      → Ends (λ n e. At e × (old ≡ some n)) At (found_node r o, d)
  found r (some n) d h e = (h, e)
  found (ok u) none d h e = h
  found (err x) none d h e = h

  find-At : Runs At (find p) (λ n d. At d × (old ≡ some n)) At
  unfolding find
  find-At = record { ends = λ d h. rw h (found (reach p d) old d h refl) }

  pub lstat-At : Runs At (lstat p) (λ n d. At d × (old ≡ some n)) At
  unfolding lstat
  lstat-At = Runs-then _ _ syscall-At λ u. find-At

  -- What is read is what stands at the path, if that is a regular file.
  pub read_file-At :
      (n : Inode)
      → old ≡ some n
      → n.kind ≡ regular
      → Runs At (read_file p) (λ c d. At d × (n.content ≡ c)) At
  unfolding read_file
  read_file-At n o k = Runs-then _ _ syscall-At λ u. Runs-then _ _ (follow_regular n o k) λ q.
      record {
        ends = λ d h. rw h.1 (
            (Runs-then _ _ find-At λ m. Runs-then _ _ (Runs-tests _ λ e j. j.0) λ w.
                Runs-pure m.content λ e j. (
                  j.0,
                  let same : n ≡ m = cc (sym o ∙ j.1) in ap (λ (x : Inode). x.content) same,
                )).ends
              d h.0);
      }
