-- ===== src/Core/Clock.antt =====
-- internal/core/hlc.go: the hybrid logical clock.
pub mod Advance
use distributed_configs_fs.Base.{
  ℕ, ◌+◌, ◌*◌, ◌%◌, ◌^◌, Bool, ◌&&◌, ◌==◌, ℤ, pos, ltz, ltb, maxz, wrap64, ◌-ℤ◌, int_eq,
  if◌then◌else◌,
}
use distributed_configs_fs.Core.Entry.{Timestamp, zero_time}

-- Five minutes, in nanoseconds.
abbrev pub max_clock_drift : ℤ
max_clock_drift = pos (5 * 60 * 1000000000)

abbrev pub u32_mod : ℕ
u32_mod = 2 ^ 32

-- The physical clock is the injected function `now`: what it returns at each of its calls.
-- `reads` counts the calls made so far.
pub record Clock : Type 0 where
  pub now : ℕ → ℤ
  pub reads : ℕ
  pub last : Timestamp

unfoldable pub new_clock : (ℕ → ℤ) → Clock
new_clock now = record { now = now; reads = 0; last = zero_time }

-- The reading that the next call of `c.now()` returns.
abbrev pub physical : Clock → ℤ
physical c = c.now c.reads

-- The last line of `Now` and `Observe`: the new reading is kept and returned.
abbrev set_last : Clock → Timestamp → Clock
set_last c t = record c { reads = c.reads + 1; last = t }

abbrev next_time : Timestamp → ℤ → Timestamp
next_time last wall =
    if ltz last.wall wall
    then record { wall = wall; counter = 0 }
    else record last { counter = (last.counter + 1) % u32_mod }

-- `Now`
unfoldable pub tick : Clock → Timestamp × Clock
tick c = let t = next_time c.last (physical c) in (t, set_last c t)

abbrev max_nat : ℕ → ℕ → ℕ
max_nat a b = if ltb a b then b else a

-- The switch of `Observe`, at the greatest wall component.
unfoldable pub merge_counter : ℤ → Timestamp → Timestamp → ℕ
merge_counter wall last remote =
    if wall == last.wall && wall == remote.wall
    then (max_nat last.counter remote.counter + 1) % u32_mod
    else if wall == last.wall
    then (last.counter + 1) % u32_mod
    else if wall == remote.wall
    then (remote.counter + 1) % u32_mod
    else 0

unfoldable pub merge_time : ℤ → Timestamp → Timestamp → Timestamp
unfolding merge_counter
merge_time now last remote =
    let wall = maxz (maxz now last.wall) remote.wall in
    record { wall = wall; counter = merge_counter wall last remote }

-- The test for ErrClockDrift; the subtraction is that of int64.
unfoldable pub drifts : ℤ → Timestamp → Bool
drifts now remote = ltz max_clock_drift (wrap64 (remote.wall -ℤ now))

pub data Observed : Type 0 where
  adopted : Timestamp → Observed
  clock_drift : Observed

-- `Observe`. A refusal has read the physical clock and changes nothing else.
unfoldable pub observe : Clock → Timestamp → Observed × Clock
unfolding drifts merge_time
observe c remote =
    if drifts (physical c) remote
    then (clock_drift, record c { reads = c.reads + 1 })
    else (let t = merge_time (physical c) c.last remote in (adopted t, set_last c t))
