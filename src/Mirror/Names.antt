-- ===== src/Mirror/Names.antt =====
-- The paths that internal/mirror/mirror.go makes: the functions Dir and Join of package path, the
-- scratch file beside a file, and the directories above a path.
use mathlib.Core.List.{reverse}
use distributed_configs_fs.Base.{
  ◌≡◌, refl, Bool, true, false, Text, codes, ltt, has_prefix, List, [], ◌∷◌, ◌++◌, map, ◌==◌,
  nat_eq, text_eq, if◌then◌else◌,
}
use distributed_configs_fs.Core.Paths.{
  slash, clean, base, split, clean_elements, clean_step, cons_head, join,
}

abbrev pub tmp_prefix : Text
tmp_prefix = codes ".dcfs-tmp-"

from_slash : Text → Text
from_slash [] = []
from_slash (c ∷ s) = if c == slash then c ∷ s else from_slash s

-- path.Dir: what stands before the last slash, cleaned.
unfoldable pub dir_name : Text → Text
unfolding from_slash clean
dir_name p = clean (reverse (from_slash (reverse p)))

-- path.Join of two names.
unfoldable pub join_names : Text → Text → Text
unfolding clean
join_names [] [] = []
join_names [] (c ∷ b) = clean (c ∷ b)
join_names (c ∷ a) [] = clean (c ∷ a)
join_names (c ∷ a) (d ∷ b) = clean ((c ∷ a) ++ (slash ∷ d ∷ b))

-- The scratch file of writeAtomic.
unfoldable pub tmp_name : Text → Text
unfolding join_names dir_name base
tmp_name p = join_names (dir_name p) (tmp_prefix ++ base p)

unfoldable pub is_tmp : Text → Bool
unfolding base has_prefix
is_tmp p = has_prefix (base p) tmp_prefix

-- The directories above a path, the outermost first.
unfoldable pub ancestors : Text → List Text
ancestors [] = []
ancestors (c ∷ s) =
    let rest = map (λ (q : Text). c ∷ q) (ancestors s) in if c == slash then [] ∷ rest else rest

-- The order of a walk: by the elements, a directory before what is in it.
before_elements : List Text → List Text → Bool
before_elements [] [] = false
before_elements [] (f ∷ fs) = true
before_elements (e ∷ es) [] = false
before_elements (e ∷ es) (f ∷ fs) =
    let rest = before_elements es fs in if e == f then rest else ltt e f

unfoldable pub walk_before : Text → Text → Bool
unfolding before_elements split
walk_before p q = before_elements (split p) (split q)

test_names :
    (tmp_name (codes "etc/a.conf") ≡ codes "etc/.dcfs-tmp-a.conf")
    × (tmp_name (codes "a") ≡ codes ".dcfs-tmp-a")
    × (dir_name (codes "/a") ≡ codes "/")
    × (ancestors (codes "a/b/c") ≡ codes "a" ∷ codes "a/b" ∷ [])
    × (walk_before (codes "a/z") (codes "a.b") ≡ true)
unfolding tmp_name ancestors walk_before text_eq has_prefix clean_elements clean_step cons_head join
    ltt
test_names = (refl, refl, refl, refl, refl)
