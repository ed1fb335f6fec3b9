-- ===== src/Fuse/Nodes/Listing.antt =====
-- internal/fusefs/fusefs.go: what Readdir lists.
use distributed_configs_fs.Base.{
  ◌≡◌, refl, ◌≢◌, ◌⊎◌, ◌↔◌, inl, inr, ◌∙◌, sym, ap, true, false, ◌||◌, ◌==◌, text_eq, nat_eq,
  Bool-cases, Text, List, [], ◌∷◌, ◌++◌, length, drop, has_prefix, contains_text, codes, arith,
}
use distributed_configs_fs.Core.Entry.{Meta}
use distributed_configs_fs.Fuse.Nodes.{DirEntry, direct_children}

-- A name is listed.
abbrev pub Lists : Text → List DirEntry → Type 0
Lists name [] = ⊥
Lists name (d ∷ ds) = (d.name ≡ name) ⊎ Lists name ds

-- An entry stands just below the prefix, under a name of one element.
abbrev pub HasChild : Text → Text → List Meta → Type 0
HasChild prefix name [] = ⊥
HasChild prefix name (m ∷ ms) =
    ((m.path ≡ prefix ++ name) × (name ≢ []) × (contains_text name (codes "/") ≡ false))
    ⊎ HasChild prefix name ms

prefix_back : (p prefix : Text) → has_prefix p prefix ≡ true → p ≡ prefix ++ drop (length prefix) p
unfolding has_prefix
prefix_back p [] h = refl
prefix_back [] (c ∷ prefix) h = cc h
prefix_back (b ∷ p) (c ∷ prefix) h = ground (arith, prefix_back p prefix)

prefix_there : (prefix name : Text) → has_prefix (prefix ++ name) prefix ≡ true
unfolding has_prefix
prefix_there [] name = ground arith
prefix_there (c ∷ prefix) name = ground (arith, prefix_there prefix name)

rest_there : (prefix name : Text) → drop (length prefix) (prefix ++ name) ≡ name
rest_there [] name = refl
rest_there (c ∷ prefix) name = rest_there prefix name

listed_child :
    (prefix name : Text) (ms : List Meta)
    → Lists name (direct_children prefix ms)
    → HasChild prefix name ms
unfolding direct_children
listed_child prefix name [] = λ h. h
listed_child prefix name (m ∷ ms) =
    let rest : Text = drop (length prefix) m.path in
    elim (Bool-cases (has_prefix m.path prefix)) [
      | inr e ↦ rw e λ h. inr (listed_child prefix name ms h)
      | inl e ↦ elim (Bool-cases (rest == [] || contains_text rest (codes "/"))) [
        | inl bad ↦ rw (e, bad) λ h. inr (listed_child prefix name ms h)
        | inr good ↦
            rw (e, good)
              λ h. elim h [
                | inl same ↦ inl (
                  prefix_back m.path prefix e ∙ ap (λ t. prefix ++ t) same,
                  (λ k. let none_left : rest ≡ [] = same ∙ k in ground arith),
                  rw (sym same) (ground arith),
                )
                | inr later ↦ inr (listed_child prefix name ms later)
              ]
      ]
    ]

child_listed :
    (prefix name : Text) (ms : List Meta)
    → HasChild prefix name ms
    → Lists name (direct_children prefix ms)
unfolding direct_children
child_listed prefix name [] h = h
child_listed prefix name (m ∷ ms) (inl (e, n, c)) =
    let at : has_prefix m.path prefix ≡ true = rw e (prefix_there prefix name) in
    let rest : drop (length prefix) m.path ≡ name = rw e (rest_there prefix name) in
    let good : (name == [] || contains_text name (codes "/")) ≡ false = ground arith in
    rw (at, rest, good) (inl refl)
child_listed prefix name (m ∷ ms) (inr h) =
    let rest : Text = drop (length prefix) m.path in
    let later : Lists name (direct_children prefix ms) = child_listed prefix name ms h in
    elim (Bool-cases (has_prefix m.path prefix)) [
      | inr e ↦ rw e later
      | inl e ↦ elim (Bool-cases (rest == [] || contains_text rest (codes "/"))) [
        | inl bad ↦ rw (e, bad) later
        | inr good ↦ rw (e, good) (inr later)
      ]
    ]

-- A directory lists a name exactly if an entry stands at its prefix followed by this name, and the
-- name is not empty and holds no slash: neither the directory itself is listed, nor what stands
-- deeper, nor what only begins with the same letters.
pub direct_children_exact :
    (prefix name : Text) (ms : List Meta)
    → Lists name (direct_children prefix ms) ↔ HasChild prefix name ms
direct_children_exact prefix name ms = (listed_child prefix name ms, child_listed prefix name ms)
