-- ===== src/Memory/Numeric/Tests.antt =====
-- memory/numeric.go: runs, and the theorem at concrete arguments.
use kaka.Prelude.{◌≡◌, refl, pos, negsuc, ◌-ℤ◌, some}
use kaka.Clock.{max_duration}
use kaka.Double.{nat}
use kaka.Double.Whole.{Whole, whole_double}
use kaka.Memory.Numeric.{remaining_floor, duration_from_seconds_ceil}

remaining_floor_test :
    (remaining_floor {W = Whole} (nat 7) ≡ pos 7)
    × (remaining_floor {W = Whole} (some (negsuc 2)) ≡ pos 0)
unfolding remaining_floor
remaining_floor_test = (refl, refl)

duration_from_seconds_ceil_test :
    (duration_from_seconds_ceil {W = Whole} (nat 3) ≡ pos 3_000_000_000)
    × (duration_from_seconds_ceil {W = Whole} (nat 9_300_000_000) ≡ max_duration)
    × (duration_from_seconds_ceil {W = Whole} (nat 0) ≡ pos 0)
unfolding duration_from_seconds_ceil ◌-ℤ◌
duration_from_seconds_ceil_test = (refl, refl, refl)
