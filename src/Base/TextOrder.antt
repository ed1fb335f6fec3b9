-- ===== src/Base/TextOrder.antt =====
-- The order of Go strings.
use mathlib.Core.Path.{◌≡◌, refl}
use mathlib.Core.Bool.{true, false}
use mathlib.Core.List.{[], ◌∷◌}
use native.Mathlib.Omega.{arith}
use distributed_configs_fs.Base.Texts.{Text, ltt}

pub ltt_irrefl : (s : Text) → ltt s s ≡ false
unfolding ltt
ltt_irrefl [] = refl
ltt_irrefl (x ∷ xs) = ground (arith, ltt_irrefl xs)

pub ltt_asymm : (s t : Text) → ltt s t ≡ true → ltt t s ≡ false
unfolding ltt
ltt_asymm [] [] h = refl
ltt_asymm [] (y ∷ ys) h = refl
ltt_asymm (x ∷ xs) [] h = cc
ltt_asymm (x ∷ xs) (y ∷ ys) h = ground (arith, ltt_asymm xs ys)

pub ltt_trans : (s t u : Text) → ltt s t ≡ true → ltt t u ≡ true → ltt s u ≡ true
unfolding ltt
ltt_trans [] [] u h k = cc
ltt_trans [] (y ∷ ys) [] h k = cc
ltt_trans [] (y ∷ ys) (z ∷ zs) h k = refl
ltt_trans (x ∷ xs) [] u h k = cc
ltt_trans (x ∷ xs) (y ∷ ys) [] h k = cc
ltt_trans (x ∷ xs) (y ∷ ys) (z ∷ zs) h k = ground (arith, ltt_trans xs ys zs)

pub ltt_total : (s t : Text) → ltt s t ≡ false → ltt t s ≡ false → s ≡ t
unfolding ltt
ltt_total [] [] h k = refl
ltt_total [] (y ∷ ys) h k = cc
ltt_total (x ∷ xs) [] h k = cc
ltt_total (x ∷ xs) (y ∷ ys) h k = ground (arith, ltt_total xs ys)
