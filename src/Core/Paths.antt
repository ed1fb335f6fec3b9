-- ===== src/Core/Paths.antt =====
-- internal/core/path.go: the checks on a path that arrives from outside, the mode mask, and the
-- names of conflict copies. Paths are byte strings; the functions of packages path and strings that
-- the code calls are written out over the elements between the slashes.
pub mod Elements
pub mod Canonical
use mathlib.Core.List.{reverse}
use mathlib.Core.WellFounded.{Acc}
use mathlib.Core.Logic.{dite}
use Prim.Native.Nat.{bit_and}
use native.Mathlib.Decide.{dec_lt}
use distributed_configs_fs.Base.{
  ℕ, zero, suc, ◌+◌, ◌/◌, ◌%◌, ◌^◌, ◌<◌, Bool, true, false, not, ◌||◌, ◌&&◌, ltb, ◌==◌, nat_eq,
  text_eq, Text, codes, has_prefix, contains_text, List, [], ◌∷◌, ◌++◌, length, if◌then◌else◌, ℤ,
  pos, negsuc, arith, lt_wf, ◌≡◌, refl,
}
use distributed_configs_fs.Core.Error.{Result, ok, err, Error, bad_path, ◌>>=◌, ◌>>◌, guard}

abbrev pub max_path_len : ℕ
max_path_len = 4096

abbrev pub max_name_len : ℕ
max_name_len = 255

abbrev pub slash : ℕ
slash = b'/'

abbrev pub dot : Text
dot = codes "."

abbrev pub dot_dot : Text
dot_dot = codes ".."

unfoldable pub cons_head : ℕ → List Text → List Text
cons_head c [] = (c ∷ []) ∷ []
cons_head c (el ∷ els) = (c ∷ el) ∷ els

-- strings.Split(p, "/")
unfoldable pub split : Text → List Text
unfolding cons_head
split [] = [] ∷ []
split (c ∷ s) = if c == slash then [] ∷ split s else cons_head c (split s)

-- strings.Join(els, "/")
unfoldable pub join : List Text → Text
join [] = []
join (el ∷ []) = el
join (el ∷ el' ∷ els) = el ++ (slash ∷ join (el' ∷ els))

-- One element of a path under path.Clean: the elements kept so far, the last one first.
unfoldable pub clean_step : Bool → List Text → Text → List Text
clean_step rooted [] el =
    if el == [] || el == dot
    then []
    else if el == dot_dot
    then (if rooted then [] else dot_dot ∷ [])
    else el ∷ []
clean_step rooted (top ∷ kept) el =
    if el == [] || el == dot
    then top ∷ kept
    else if el == dot_dot
    then (if top == dot_dot then dot_dot ∷ top ∷ kept else kept)
    else el ∷ top ∷ kept

unfoldable pub clean_elements : Bool → List Text → List Text → List Text
clean_elements rooted kept [] = kept
clean_elements rooted kept (el ∷ els) = clean_elements rooted (clean_step rooted kept el) els

-- path.Clean
unfoldable pub clean : Text → Text
unfolding clean_step clean_elements split join
clean p =
    let rooted = has_prefix p (codes "/") in
    let kept = join (reverse (clean_elements rooted [] (split p))) in
    if rooted then slash ∷ kept else if kept == [] then dot else kept

unfoldable pub contains_nul : Text → Bool
contains_nul [] = false
contains_nul (c ∷ s) = c == 0 || contains_nul s

-- The loop of SanitizePath over the elements.
unfoldable pub check_elements : List Text → Result (Unit {0})
check_elements [] = ok tt
check_elements (el ∷ els) = do
  guard (not (el == [])) bad_path
  guard (not (el == dot || el == dot_dot)) bad_path
  guard (not (ltb max_name_len (length el))) bad_path
  check_elements els

unfoldable pub sanitize_path : Text → Result Text
unfolding contains_nul check_elements
sanitize_path p = do
  guard (not (p == [])) bad_path
  guard (not (ltb max_path_len (length p))) bad_path
  guard (not (contains_nul p)) bad_path
  guard (not (has_prefix p (codes "/"))) bad_path
  guard (clean p == p) bad_path
  check_elements (split p)
  ok p

-- fs.ModePerm | fs.ModeSetuid | fs.ModeSetgid | fs.ModeSticky
abbrev pub mode_mask : ℕ
mode_mask = 0o777 + 2 ^ 23 + 2 ^ 22 + 2 ^ 20

unfoldable pub sanitize_mode : ℕ → ℕ
sanitize_mode mode = bit_and mode mode_mask

-- The digits of a number: those of its tenth part, then the last one.
unfoldable pub digits : (n : ℕ) → Acc ◌<◌ n → Text
digits n (Acc.intro _ below) =
    dite (dec_lt n 10) (λ h. (b'0' + n) ∷ [])
      (λ h. digits (n / 10) (below (n / 10) (omega arith)) ++ ((b'0' + n % 10) ∷ []))

-- The verb %d of package fmt, on a number and on an int64.
unfoldable pub decimal : ℕ → Text
unfolding digits lt_wf
decimal n = digits n (lt_wf.apply n)

unfoldable pub format_int : ℤ → Text
unfolding decimal
format_int (pos n) = decimal n
format_int (negsuc n) = b'-' ∷ decimal (suc n)

abbrev pub conflict_mark : Text
conflict_mark = codes ".conflict."

unfoldable pub conflict_name : Text → Text → ℤ → Text
unfolding format_int
conflict_name p node unix_nano =
    p ++ (conflict_mark ++ (node ++ (codes "." ++ format_int unix_nano)))

drop_slashes : Text → Text
drop_slashes [] = []
drop_slashes (c ∷ s) = let rest = drop_slashes s in if c == slash then rest else c ∷ s

last_of : List Text → Text
last_of [] = []
last_of (el ∷ []) = el
last_of (el ∷ el' ∷ els) = last_of (el' ∷ els)

-- path.Base
unfoldable pub base : Text → Text
unfolding drop_slashes last_of split
base [] = dot
base (c ∷ s) =
    let q = reverse (drop_slashes (reverse (c ∷ s))) in
    if q == [] then codes "/" else last_of (split q)

unfoldable pub is_conflict_name : Text → Bool
unfolding base
is_conflict_name p = contains_text (base p) conflict_mark

test_paths :
    (sanitize_path (codes "etc/nginx.conf") ≡ ok (codes "etc/nginx.conf"))
    × (sanitize_path (codes "../etc/shadow") ≡ err bad_path)
    × (sanitize_path (codes "a//b") ≡ err bad_path)
    × (clean (codes "a/./b/../c") ≡ codes "a/c")
    × (conflict_name (codes "a/b") (codes "n2") (pos 170) ≡ codes "a/b.conflict.n2.170")
    × (is_conflict_name (codes "a/b.conflict.n2.170") ≡ true)
unfolding sanitize_path clean has_prefix text_eq conflict_name is_conflict_name contains_text dec_lt
test_paths = (refl, refl, refl, refl, refl, refl)
