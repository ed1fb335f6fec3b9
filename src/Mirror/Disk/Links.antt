-- ===== src/Mirror/Disk/Links.antt =====
-- Calls that follow links, where no link leads to a path: they leave what stands there alone.
use distributed_configs_fs.Base.{
  ℕ, zero, suc, ◌≡◌, ◌≢◌, refl, ap, inl, inr, Bool-cases, Text, List, All, Option, none, some,
}
use distributed_configs_fs.Effect.{Exec, pure}
use distributed_configs_fs.Effect.Runs.{Ends, Runs, Runs-then, Runs-pure}
use distributed_configs_fs.Mirror.Disk.{
  Inode, Disk, led_to, led_on, is_link, reached, follow, follow_links, open_trunc, open_at, chmod,
  at_node,
}
use distributed_configs_fs.Store.Table.{take_row}
use distributed_configs_fs.Mirror.Disk.Leaves.{
  Same, Leaves, Leaves-syscall, Leaves-open_at, Leaves-chmod_at, AtTarget, rows-AtTarget,
}

-- No link leads to the path.
abbrev pub Unled : Text → Option Text → Type 0
Unled q t = t ≢ some q

pub Unled-none : (q : Text) → Unled q none
Unled-none q h = cc h

led-Unled :
    (q : Text) (there : Option Inode) (t : Text)
    → AtTarget (Unled q) there
    → led_to there ≡ some (some t)
    → t ≢ q
unfolding led_to
led-Unled q none t u e h = cc e
led-Unled q (some n) t u e h = elim (Bool-cases (is_link n.kind)) [
  | inl l ↦ let k : some n.target ≡ some (some t) = rw l at e in u (cc (k, h))
  | inr l ↦ let k : none ≡ some (some t) = rw l at e in cc k
]

-- A chain of links ends at no path but its first to which no link leads.
led_on-Unled :
    (q : Text) (next : Text → Option Text) (p : Text) (l : Option (Option Text))
    → p ≢ q
    → ((t : Text) → l ≡ some (some t) → next t ≢ some q)
    → led_on next p l ≢ some q
led_on-Unled q next p none n r h = n (cc h)
led_on-Unled q next p (some none) n r h = cc h
led_on-Unled q next p (some (some t)) n r h = r t refl h

follow-Unled :
    (q : Text) (k : ℕ) (p : Text) (ns : List Inode)
    → p ≢ q
    → All (λ (n : Inode). Unled q n.target) ns
    → follow k p ns ≢ some q
unfolding follow
follow-Unled q zero p ns n u = λ h. cc h
follow-Unled q (suc k) p ns n u = led_on-Unled q _ p (led_to (take_row (at_node p) ns)) n λ t e.
    follow-Unled q k t ns
      (led-Unled q (take_row (at_node p) ns) t (rows-AtTarget (Unled q) p ns u) e) u

module _ (q : Text) (old : Option Inode) where
  abbrev pub Clear : Disk → Type 0
  Clear = Same q old (Unled q) (Unled-none q)

  abbrev pub Spares : {A : Type 0} → Exec Disk A → Type 0
  Spares = Leaves q old (Unled q) (Unled-none q)

  -- The path that a call has been led to.
  abbrev pub Apart : Text → Disk → Type 0
  Apart f d = Clear d × (f ≢ q)

  reached-Apart :
      (o : Option Text) (d : Disk) → Clear d → o ≢ some q → Ends Apart Clear (reached o, d)
  reached-Apart none d h n = h
  reached-Apart (some f) d h n = (h, λ e. n (ap some e))

  follow_links-Apart : (p : Text) → p ≢ q → Runs Clear (follow_links p) Apart Clear
  unfolding follow_links
  follow_links-Apart p n = record {
    ends = λ d h. reached-Apart _ d h (follow-Unled q (suc d.max_links) p d.nodes n h.1);
  }

  pub open_trunc-Apart : (p : Text) (mode : ℕ) → p ≢ q → Runs Clear (open_trunc p mode) Apart Clear
  unfolding open_trunc
  open_trunc-Apart p mode n = Runs-then _ _ (Leaves-syscall q old (Unled q) (Unled-none q)) λ u.
      Runs-then _ _ (follow_links-Apart p n) λ f. record {
        ends = λ d h.
            (Runs-then {R = Apart} (open_at f mode) (λ v. pure f)
                (Leaves-open_at q old (Unled q) (Unled-none q) f h.1 mode)
                λ v. Runs-pure f λ e k. (k, h.1)).ends
              d h.0;
      }

  pub Leaves-chmod : (p : Text) (mode : ℕ) → p ≢ q → Spares (chmod p mode)
  unfolding chmod
  Leaves-chmod p mode n = Runs-then _ _ (Leaves-syscall q old (Unled q) (Unled-none q)) λ u.
      Runs-then _ _ (follow_links-Apart p n) λ f. record {
        ends = λ d h. (Leaves-chmod_at q old (Unled q) (Unled-none q) f h.1 _).ends d h.0;
      }
