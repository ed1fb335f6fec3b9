-- ===== src/Base/Texts.antt =====
-- Go strings as lists of bytes: equality, order, and the functions of package strings in use.
use Prim.Native.Nat.{ℕ}
use Prim.Native.Char.{code}
use Prim.Native.String.{String}
use mathlib.Core.Path.{◌≡◌, refl}
use mathlib.Core.Bool.{Bool, true, false}
use mathlib.Core.List.{List, [], ◌∷◌}
use native.Mathlib.Decide.{ℕ_discrete}
use distributed_configs_fs.Base.Tests.{ltb, if◌then◌else◌, Eq, ◌==◌, nat_eq}

abbrev pub Text : Type 0
Text = List ℕ

-- The bytes of a literal, which is ASCII throughout the program.
abbrev pub codes : String → Text
codes String.[] = []
codes (String.◌∷◌ c s) = code c ∷ codes s

text_dec : Discrete Text
text_dec = hlevel ℕ_discrete

instance unfoldable pub text_eq : Eq Text
unfolding text_dec ℕ_discrete
text_eq = record { dec = text_dec }

-- `s < t` on strings: by bytes, a prefix before what it begins.
unfoldable pub ltt : Text → Text → Bool
ltt [] [] = false
ltt [] (y ∷ ys) = true
ltt (x ∷ xs) [] = false
ltt (x ∷ xs) (y ∷ ys) = if ltb x y then true else if ltb y x then false else ltt xs ys

-- strings.HasPrefix(s, p)
unfoldable pub has_prefix : Text → Text → Bool
has_prefix s [] = true
has_prefix [] (y ∷ p) = false
has_prefix (x ∷ s) (y ∷ p) = if x == y then has_prefix s p else false

-- strings.Contains(s, p)
unfoldable pub contains_text : Text → Text → Bool
contains_text [] p = has_prefix [] p
contains_text (x ∷ s) p = if has_prefix (x ∷ s) p then true else contains_text s p

test_texts :
    (ltt (codes "node1") (codes "node2") ≡ true)
    × (contains_text (codes "a.conflict.b") (codes ".conflict.") ≡ true)
    × ((codes "a" == codes "b") ≡ false)
unfolding ltt contains_text has_prefix text_eq
test_texts = (refl, refl, refl)
