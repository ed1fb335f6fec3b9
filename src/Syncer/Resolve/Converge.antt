-- ===== src/Syncer/Resolve/Converge.antt =====
-- internal/syncer/resolve.go, on sequences of writes to one path.
use distributed_configs_fs.Base.{
  ◌≡◌, refl, ◌↔◌, ◌⊎◌, ◌∙◌, sym, ap, true, false, List, [], ◌∷◌, Option, none, some, arith,
  Bool-cases, inl, inr,
}
use distributed_configs_fs.Core.Entry.{Meta, zero_meta, after}
use distributed_configs_fs.Core.Order.{after_total, after_trans, after_irrefl, after_asymm}
use distributed_configs_fs.Syncer.Resolve.{Decision, skip, resolve}
use distributed_configs_fs.Syncer.Resolve.Exact.{resolve_exact}

abbrev settle : Decision → Option Meta → Meta → Option Meta
settle skip local remote = local
settle _ local remote = some remote

-- What a node holds at a path after it has seen one more write to it.
pub keep_newer : Option Meta → Meta → Option Meta
keep_newer none remote = settle (resolve zero_meta false remote) none remote
keep_newer (some local) remote = settle (resolve local true remote) (some local) remote

-- What it holds after a sequence of writes.
pub see_all : Option Meta → List Meta → Option Meta
see_all held [] = held
see_all held (m ∷ ms) = see_all (keep_newer held m) ms

abbrev pub In : Meta → List Meta → Type 0
In m [] = ⊥
In m (x ∷ xs) = (m ≡ x) ⊎ In m xs

-- `m` is one of the writes and none of them comes after it.
record IsNewest (m : Meta) (ms : List Meta) : Type 0 where
  one_of : In m ms
  newest : (x : Meta) → In x ms → after x.version m.version ≡ false

-- of two writes, the one that is kept
data Kept (local remote m : Meta) : Type 0 where
  old : m ≡ local → after remote.version local.version ≡ false → Kept local remote m
  new : m ≡ remote → after local.version remote.version ≡ false → Kept local remote m

keep_newer-Kept :
    (local remote : Meta)
    → (m : Meta) × (keep_newer (some local) remote ≡ some m) × Kept local remote m
unfolding keep_newer
keep_newer-Kept local remote = elim (Bool-cases (after remote.version local.version)) [
  | inl p ↦ (
    remote,
    ground (arith, (resolve_exact local remote).0.0),
    new refl (after_asymm remote.version local.version p),
  )
  | inr p ↦ (local, ground (arith, (resolve_exact local remote).0.1 p), old refl p)
]

-- not being after is transitive, since the order is total
not_after_trans :
    (u v w : Meta)
    → after u.version v.version ≡ false
    → after v.version w.version ≡ false
    → after u.version w.version ≡ false
not_after_trans u v w h k = elim (Bool-cases (after u.version w.version)) [
  | inr p ↦ p
  | inl p ↦ elim (Bool-cases (after v.version u.version)) [
    | inl q ↦ cc (after_trans v.version u.version w.version q p)
    | inr q ↦ let same : u.version ≡ v.version = after_total u.version v.version h q in cc
  ]
]

IsNewest-step :
    (local remote m n : Meta) (ms : List Meta)
    → Kept local remote m
    → IsNewest n (m ∷ ms)
    → IsNewest n (local ∷ remote ∷ ms)
IsNewest-step local remote m n ms (old e h) w = record {
  one_of = elim w.one_of [ inl p ↦ inl (p ∙ e) | inr p ↦ inr (inr p) ];
  newest = λ x i. elim i [
    | inl p ↦ w.newest x (inl (p ∙ sym e))
    | inr (inl p) ↦ not_after_trans x m n (cc) (w.newest m (inl refl))
    | inr (inr p) ↦ w.newest x (inr p)
  ];
}
IsNewest-step local remote m n ms (new e h) w = record {
  one_of = elim w.one_of [ inl p ↦ inr (inl (p ∙ e)) | inr p ↦ inr (inr p) ];
  newest = λ x i. elim i [
    | inl p ↦ not_after_trans x m n (cc) (w.newest m (inl refl))
    | inr (inl p) ↦ w.newest x (inl (p ∙ sym e))
    | inr (inr p) ↦ w.newest x (inr p)
  ];
}

see_all-IsNewest :
    (local : Meta) (ms : List Meta)
    → (n : Meta) × (see_all (some local) ms ≡ some n) × IsNewest n (local ∷ ms)
unfolding see_all
see_all-IsNewest local [] = (
  local,
  refl,
  record {
    one_of = inl refl;
    newest = λ x i. elim i [ inl p ↦ cc (after_irrefl local.version) | inr p ↦ absurd p ];
  },
)
see_all-IsNewest local (remote ∷ ms) =
    let (m, e, k) = keep_newer-Kept local remote in
    let (n, f, w) = see_all-IsNewest m ms in (n, rw e f, IsNewest-step local remote m n ms k w)

-- Two nodes that put the same writes to a path through `resolve`, each write at least once, in any
-- order and any number of times, end up with the same entry, provided that no two different writes
-- have one version.
pub see_all_converges :
    (xs ys : List Meta)
    → ((m : Meta) → In m xs ↔ In m ys)
    → ((m n : Meta) → In m xs → In n xs → m.version ≡ n.version → m ≡ n)
    → see_all none xs ≡ see_all none ys
unfolding see_all keep_newer resolve
see_all_converges [] [] h u = refl
see_all_converges [] (y ∷ ys) h u = absurd ((h y).1 (inl refl))
see_all_converges (x ∷ xs) [] h u = absurd ((h x).0 (inl refl))
see_all_converges (x ∷ xs) (y ∷ ys) h u =
    let (m, e, v) = see_all-IsNewest x xs in
    let (n, f, w) = see_all-IsNewest y ys in
    let n_in : In n (x ∷ xs) = (h n).1 w.one_of in
    let same : m.version ≡ n.version =
      after_total m.version n.version (w.newest m ((h m).0 v.one_of)) (v.newest n n_in) in
    let equal : m ≡ n = u m n v.one_of n_in same in e ∙ ap some equal ∙ sym f
