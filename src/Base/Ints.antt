-- ===== src/Base/Ints.antt =====
-- int64 values as integers over the native numbers. Sums that may leave the range of an int64 are
-- brought back by `wrap64`, as in Go.
use Prim.Native.Nat.{ℕ, suc, ◌+◌, ◌-◌, ◌%◌, ◌^◌, ◌≤◌, ◌<◌}
use mathlib.Core.Path.{◌≡◌, refl}
use mathlib.Core.Bool.{Bool}
use native.Mathlib.Omega.{arith}
use native.Mathlib.Decide.{ℕ_discrete}
use distributed_configs_fs.Base.Tests.{ltb, leb, if◌then◌else◌, Eq}

-- `negsuc n` is -(n + 1).
pub data ℤ : Type 0 where
  pos : ℕ → ℤ
  negsuc : ℕ → ℤ

abbrev pub pos_part : ℤ → ℕ
pos_part (pos n) = n
pos_part (negsuc n) = 0

abbrev pub neg_part : ℤ → ℕ
neg_part (pos n) = 0
neg_part (negsuc n) = suc n

-- a - b, as an integer.
abbrev pub sub_ℕ : ℕ → ℕ → ℤ
sub_ℕ a b = if leb b a then pos (a - b) else negsuc (b - a - 1)

infixl 65 ◌+ℤ◌ ◌-ℤ◌
unfoldable pub ◌+ℤ◌ : ℤ → ℤ → ℤ
a +ℤ b = sub_ℕ (pos_part a + pos_part b) (neg_part a + neg_part b)

unfoldable pub ◌-ℤ◌ : ℤ → ℤ → ℤ
a -ℤ b = sub_ℕ (pos_part a + neg_part b) (neg_part a + pos_part b)

-- `a < b` and `a ≤ b` on int64.
abbrev pub ltz : ℤ → ℤ → Bool
ltz a b = ltb (pos_part a + neg_part b) (pos_part b + neg_part a)

abbrev pub lez : ℤ → ℤ → Bool
lez a b = leb (pos_part a + neg_part b) (pos_part b + neg_part a)

infix 50 ◌≤ℤ◌ ◌<ℤ◌
abbrev pub ◌≤ℤ◌ : ℤ → ℤ → Type 0
a ≤ℤ b = pos_part a + neg_part b ≤ pos_part b + neg_part a

abbrev pub ◌<ℤ◌ : ℤ → ℤ → Type 0
a <ℤ b = pos_part a + neg_part b < pos_part b + neg_part a

-- `max(a, b)` on int64.
unfoldable pub maxz : ℤ → ℤ → ℤ
maxz a b = if ltz a b then b else a

-- The int64 that a result outside the range becomes: the representative modulo 2^64 between -2^63
-- and 2^63 - 1.
unfoldable pub wrap64 : ℤ → ℤ
wrap64 (pos a) = sub_ℕ ((a + 2 ^ 63) % 2 ^ 64) (2 ^ 63)
wrap64 (negsuc a) = sub_ℕ ((2 ^ 63 + (2 ^ 64 - 1 - a % 2 ^ 64)) % 2 ^ 64) (2 ^ 63)

abbrev pub IsInt64 : ℤ → Type 0
IsInt64 z = (pos_part z < 2 ^ 63) × (neg_part z ≤ 2 ^ 63)

ℤ_dec : Discrete ℤ
ℤ_dec = hlevel ℕ_discrete

instance unfoldable pub int_eq : Eq ℤ
unfolding ℤ_dec ℕ_discrete
int_eq = record { dec = ℤ_dec }

pub eq_of_parts : (a b : ℤ) → pos_part a + neg_part b ≡ pos_part b + neg_part a → a ≡ b
eq_of_parts a b h = ground arith

-- A value inside the range is left as it is.
pub wrap64_of_int64 : (z : ℤ) → IsInt64 z → wrap64 z ≡ z
unfolding wrap64
wrap64_of_int64 (pos a) h = ground arith
wrap64_of_int64 (negsuc a) h = ground arith

-- The difference of an int64 and a reading of the clock that is not negative does not overflow
-- upwards: wrapped, it is never too small.
pub wrap64-sub_le :
    (a b : ℤ) → IsInt64 a → pos_part b < 2 ^ 63 → neg_part b ≡ 0 → (a -ℤ b) ≤ℤ wrap64 (a -ℤ b)
unfolding wrap64 ◌-ℤ◌
wrap64-sub_le (pos a) (pos b) ha hb h = ground arith
wrap64-sub_le (negsuc a) (pos b) ha hb h = ground arith
wrap64-sub_le a (negsuc b) ha hb h = absurd (omega arith)

pub -ℤ_parts :
    (a b : ℤ)
    → pos_part (a -ℤ b) + neg_part a + pos_part b ≡ neg_part (a -ℤ b) + pos_part a + neg_part b
unfolding ◌-ℤ◌
-ℤ_parts a b = ground arith

pub +ℤ_parts :
    (a b : ℤ)
    → pos_part (a +ℤ b) + neg_part a + neg_part b ≡ neg_part (a +ℤ b) + pos_part a + pos_part b
unfolding ◌+ℤ◌
+ℤ_parts a b = ground arith

pub le-maxz : (a b : ℤ) → (a ≤ℤ maxz a b) × (b ≤ℤ maxz a b)
unfolding maxz
le-maxz a b = ground arith

test_wrap : (wrap64 (pos (2 ^ 63)) ≡ negsuc (2 ^ 63 - 1)) × (wrap64 (negsuc 4) ≡ negsuc 4)
unfolding wrap64
test_wrap = (refl, refl)
