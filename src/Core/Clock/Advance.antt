-- ===== src/Core/Clock/Advance.antt =====
-- The readings of the clock of internal/core/hlc.go, in the order in which they are taken.
use distributed_configs_fs.Base.{
  ◌≡◌, ◌<◌, ◌+◌, ◌-◌, ◌^◌, ℤ, pos, negsuc, maxz, ◌≤ℤ◌, ◌<ℤ◌, arith, int_eq, -ℤ_parts, +ℤ_parts,
  ◌+ℤ◌, wrap64-sub_le, IsInt64, pos_part, neg_part, ◌⊎◌,
}
use distributed_configs_fs.Core.Entry.{Timestamp, compare_time}
use distributed_configs_fs.Core.Clock.{
  Clock, tick, observe, merge_time, adopted, clock_drift, u32_mod, physical, max_clock_drift,
}

-- The counter of a timestamp has room for one more event.
abbrev pub HasRoom : Timestamp → Type 0
HasRoom t = t.counter + 1 < u32_mod

-- A local reading comes strictly after the last one, whatever the physical clock says, unless the
-- counter is about to wrap.
pub tick_advances : (c : Clock) → HasRoom c.last → compare_time (tick c).0 c.last ≡ pos 1
unfolding tick compare_time
tick_advances c h = ground arith

pub merge_advances :
    (now : ℤ) (last remote : Timestamp)
    → HasRoom last
    → HasRoom remote
    → (compare_time (merge_time now last remote) last ≡ pos 1)
      × (compare_time (merge_time now last remote) remote ≡ pos 1)
unfolding merge_time compare_time maxz int_eq
merge_advances now last remote h k = ground arith

-- When a peer's timestamp is adopted, and neither its counter nor that of the last reading is about
-- to wrap, the new reading comes after both of them and is kept as the last one.
pub observe_advances :
    (c : Clock) (remote : Timestamp) {t : Timestamp}
    → HasRoom c.last
    → HasRoom remote
    → (observe c remote).0 ≡ adopted t
    → (compare_time t c.last ≡ pos 1)
      × (compare_time t remote ≡ pos 1)
      × ((observe c remote).1.last ≡ t)
unfolding observe
observe_advances c remote {t} h k e =
    let (a, b) = merge_advances (physical c) c.last remote h k in
    let e' : merge_time (physical c) c.last remote ≡ t = ground arith in
    (rw e' at a, rw e' at b, ground arith)

-- If a peer's counter is the largest uint32 and its wall component is ahead of the physical clock
-- and not behind that of the last reading, the reading that is adopted comes before the peer's
-- timestamp.
pub observe_wraps :
    (c : Clock) (remote : Timestamp) {t : Timestamp}
    → (observe c remote).0 ≡ adopted t
    → remote.counter ≡ u32_mod - 1
    → c.last.counter < u32_mod
    → physical c <ℤ remote.wall
    → c.last.wall ≤ℤ remote.wall
    → compare_time t remote ≡ negsuc 0
unfolding observe merge_time compare_time maxz int_eq
observe_wraps c remote e h k p q = ground arith

-- A refused timestamp leaves the last reading alone.
pub observe_refused :
    (c : Clock) (remote : Timestamp)
    → (observe c remote).0 ≡ clock_drift
    → (observe c remote).1.last ≡ c.last
unfolding observe
observe_refused c remote e = ground arith

-- For a physical clock that is not negative and a timestamp that fits an int64: the wall component
-- of an adopted reading is never more than the permitted drift ahead of the physical clock, unless
-- it is no more than that of the last reading.
pub observe_drift_bound :
    (c : Clock) (remote : Timestamp) {t : Timestamp}
    → IsInt64 remote.wall
    → pos_part (physical c) < 2 ^ 63
    → neg_part (physical c) ≡ 0
    → (observe c remote).0 ≡ adopted t
    → (t.wall ≤ℤ c.last.wall) ⊎ (t.wall ≤ℤ (physical c +ℤ max_clock_drift))
unfolding observe merge_time maxz
observe_drift_bound c remote i p n e = ground (
  arith,
  -ℤ_parts remote.wall (physical c),
  wrap64-sub_le remote.wall (physical c) i p n,
  +ℤ_parts (physical c) max_clock_drift,
)
