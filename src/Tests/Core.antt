-- ===== src/Tests/Core.antt =====
-- The clock, the order of versions and the paths.
use native.Mathlib.Decide.{ℕ_discrete}
use distributed_configs_fs.Base.{
  ℕ, ◌-◌, ◌≡◌, refl, ◌↔◌, ◌⊎◌, arith, true, false, pos, negsuc, maxz, ◌-ℤ◌, ◌+ℤ◌, wrap64, ◌≤ℤ◌,
  Text, codes, int_eq, ltt,
}
use distributed_configs_fs.Core.Error.{ok}
use distributed_configs_fs.Core.Entry.{Timestamp, Version, compare_time, after}
use distributed_configs_fs.Core.Order.{after_trans}
use distributed_configs_fs.Core.Clock.{
  Clock, tick, observe, merge_time, merge_counter, drifts, adopted, u32_mod, max_clock_drift,
  physical,
}
use distributed_configs_fs.Core.Clock.Advance.{
  tick_advances, observe_advances, observe_wraps, observe_drift_bound,
}
use distributed_configs_fs.Core.Paths.{sanitize_path}
use distributed_configs_fs.Core.Paths.Canonical.{IsCanonical, sanitize_path_exact}

-- The physical clock stands behind the last reading.
abbrev clock : Clock
clock = record { now = λ n. pos 5; reads = 0; last = record { wall = pos 7; counter = 3 } }

abbrev peer_time : Timestamp
peer_time = record { wall = pos 9; counter = 4 }

abbrev merged : Timestamp
merged = record { wall = pos 9; counter = 5 }

tick_advances_example : compare_time (tick clock).0 clock.last ≡ pos 1
tick_advances_example = tick_advances clock (omega arith)

test_observe : (observe clock peer_time).0 ≡ adopted merged
unfolding observe merge_time merge_counter drifts maxz ◌-ℤ◌ wrap64 int_eq ℕ_discrete
test_observe = refl

observe_advances_example :
    (compare_time merged clock.last ≡ pos 1)
    × (compare_time merged peer_time ≡ pos 1)
    × ((observe clock peer_time).1.last ≡ merged)
observe_advances_example =
    observe_advances clock peer_time {t = merged} (omega arith) (omega arith) test_observe

observe_drift_bound_example :
    (merged.wall ≤ℤ clock.last.wall) ⊎ (merged.wall ≤ℤ (physical clock +ℤ max_clock_drift))
observe_drift_bound_example =
    observe_drift_bound clock peer_time {t = merged} (omega arith, omega arith) (omega arith) refl
      test_observe

abbrev full_time : Timestamp
full_time = record { wall = pos 9; counter = u32_mod - 1 }

abbrev wrapped : Timestamp
wrapped = record { wall = pos 9; counter = 0 }

test_wrap : (observe clock full_time).0 ≡ adopted wrapped
unfolding observe merge_time merge_counter drifts maxz ◌-ℤ◌ wrap64 int_eq ℕ_discrete
test_wrap = refl

observe_wraps_example : compare_time wrapped full_time ≡ negsuc 0
observe_wraps_example =
    observe_wraps clock full_time {t = wrapped} test_wrap refl (omega arith) (omega arith)
      (omega arith)

abbrev at : ℕ → Text → Version
at counter origin = record { hlc = record { wall = pos 7; counter = counter }; origin = origin }

test_after :
    (after (at 2 (codes "a")) (at 1 (codes "b")) ≡ true)
    × (after (at 1 (codes "b")) (at 1 (codes "a")) ≡ true)
unfolding after compare_time int_eq ℕ_discrete ltt
test_after = (refl, refl)

after_trans_example : after (at 2 (codes "a")) (at 1 (codes "a")) ≡ true
after_trans_example =
    after_trans (at 2 (codes "a")) (at 1 (codes "b")) (at 1 (codes "a")) test_after.0 test_after.1

test_same : after (at 1 (codes "a")) (at 1 (codes "a")) ≡ false
unfolding after compare_time int_eq ℕ_discrete ltt
test_same = refl

sanitize_path_exact_example :
    (sanitize_path (codes "etc/app.conf") ≡ ok (codes "etc/app.conf"))
    ↔ ((codes "etc/app.conf" ≡ codes "etc/app.conf") × IsCanonical (codes "etc/app.conf"))
sanitize_path_exact_example = sanitize_path_exact (codes "etc/app.conf") (codes "etc/app.conf")
