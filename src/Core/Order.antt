-- ===== src/Core/Order.antt =====
-- The order of versions, `Version.After` of internal/core/hlc.go.
use distributed_configs_fs.Base.{
  ◌≡◌, ◌∙◌, ◌<◌, true, false, arith, eq_of_parts, ltt, ltz, ltb, ◌<ℤ◌, int_eq, Bool-cases, inl, inr,
}
use distributed_configs_fs.Base.TextOrder.{ltt_irrefl, ltt_asymm, ltt_trans, ltt_total}
use distributed_configs_fs.Core.Entry.{Version, after, equal}

-- What a won comparison says of the two versions.
data Wins (u v : Version) : Type 0 where
  by_wall : v.hlc.wall <ℤ u.hlc.wall → Wins u v
  by_counter : v.hlc.wall ≡ u.hlc.wall → v.hlc.counter < u.hlc.counter → Wins u v
  by_origin :
      v.hlc.wall ≡ u.hlc.wall
      → v.hlc.counter ≡ u.hlc.counter
      → ltt v.origin u.origin ≡ true
      → Wins u v

Wins-of_after : (u v : Version) → after u v ≡ true → Wins u v
unfolding after
Wins-of_after u v h = elim (Bool-cases (ltz v.hlc.wall u.hlc.wall)) [
  | inl p ↦ by_wall (ground arith)
  | inr p ↦ elim (Bool-cases (ltb v.hlc.counter u.hlc.counter)) [
    | inl q ↦ by_counter (ground (arith, eq_of_parts v.hlc.wall u.hlc.wall)) (ground arith)
    | inr q ↦
        by_origin (ground (arith, eq_of_parts v.hlc.wall u.hlc.wall)) (ground arith) (ground arith)
  ]
]

after_of_Wins : (u v : Version) → Wins u v → after u v ≡ true
unfolding after int_eq
after_of_Wins u v (by_wall p) = ground arith
after_of_Wins u v (by_counter p q) = ground arith
after_of_Wins u v (by_origin p q r) = ground arith

Wins-trans : (u v w : Version) → Wins u v → Wins v w → Wins u w
Wins-trans u v w (by_wall p) (by_wall q) = by_wall (omega arith)
Wins-trans u v w (by_wall p) (by_counter q r) = by_wall (rw q p)
Wins-trans u v w (by_wall p) (by_origin q r s) = by_wall (rw q p)
Wins-trans u v w (by_counter p r) (by_wall q) = by_wall (rw (← p) q)
Wins-trans u v w (by_counter p r) (by_counter q s) = by_counter (q ∙ p) (omega arith)
Wins-trans u v w (by_counter p r) (by_origin q s t) = by_counter (q ∙ p) (omega arith)
Wins-trans u v w (by_origin p r x) (by_wall q) = by_wall (rw (← p) q)
Wins-trans u v w (by_origin p r x) (by_counter q s) = by_counter (q ∙ p) (omega arith)
Wins-trans u v w (by_origin p r x) (by_origin q s t) =
    by_origin (q ∙ p) (omega arith) (ltt_trans w.origin v.origin u.origin t x)

-- If one version wins over a second and the second over a third, the first wins over the third.
pub after_trans : (u v w : Version) → after u v ≡ true → after v w ≡ true → after u w ≡ true
after_trans u v w h k =
    after_of_Wins u w (Wins-trans u v w (Wins-of_after u v h) (Wins-of_after v w k))

pub after_asymm : (u v : Version) → after u v ≡ true → after v u ≡ false
unfolding after
after_asymm u v h = ground (arith, ltt_asymm v.origin u.origin)

pub after_irrefl : (v : Version) → after v v ≡ false
unfolding after
after_irrefl v = ground (arith, ltt_irrefl v.origin)

-- Two versions of which neither wins over the other are equal.
pub after_total : (u v : Version) → after u v ≡ false → after v u ≡ false → u ≡ v
unfolding after
after_total u v h k = ground (arith, ltt_total v.origin u.origin, eq_of_parts u.hlc.wall v.hlc.wall)

pub equal_sound : (u v : Version) → equal u v ≡ true → u ≡ v
unfolding equal
equal_sound u v h = ground (arith, eq_of_parts u.hlc.wall v.hlc.wall)

pub equal_refl : (v : Version) → equal v v ≡ true
unfolding equal
equal_refl v = ground arith
