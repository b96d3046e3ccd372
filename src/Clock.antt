-- ===== src/Clock.antt =====
-- What the program uses of Go's package time: a `time.Time` is an integer of nanoseconds since
-- January 1 of year 1, the zero `time.Time`; a `time.Duration` is an integer of nanoseconds in the
-- range of an int64. Monotonic clock readings are not told from wall clock readings.
use kaka.Prelude.{ℕ, ℤ, pos, negsuc, ◌-ℤ◌, ◌≤ℤ◌, ltb_ℤ, -ℤ_parts, ◌≡◌, arith, if◌then◌else◌}

abbrev pub Time : Type 0
Time = ℤ

abbrev pub Duration : Type 0
Duration = ℤ

abbrev pub zero_time : Time
zero_time = pos 0

abbrev pub second : ℕ
second = 1_000_000_000

abbrev pub minute : ℕ
minute = 60_000_000_000

abbrev pub max_duration : Duration
max_duration = pos 9_223_372_036_854_775_807

abbrev pub min_duration : Duration
min_duration = negsuc 9_223_372_036_854_775_807

-- `t.Sub(u)` saturates.
unfoldable pub time_sub : Time → Time → Duration
time_sub t u =
    if ltb_ℤ max_duration (t -ℤ u)
    then max_duration
    else if ltb_ℤ (t -ℤ u) min_duration
    then min_duration
    else t -ℤ u

pub time_sub_exact :
    (t u : Time) → t -ℤ u ≤ℤ max_duration → min_duration ≤ℤ t -ℤ u → time_sub t u ≡ t -ℤ u
unfolding time_sub
time_sub_exact t u h k = ground arith

-- `t.Sub(t)` is zero, and a later time is no less far away.
pub time_sub_self : (t : Time) → time_sub t t ≡ pos 0
unfolding time_sub
time_sub_self t = ground (arith, -ℤ_parts t t)
