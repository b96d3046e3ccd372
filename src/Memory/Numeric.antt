-- ===== src/Memory/Numeric.antt =====
-- memory/numeric.go: what the two buckets do with their floating-point results.
pub mod Level
pub mod Whole
mod Tests
use kaka.Prelude.{
  ℕ, ◌≤◌, ◌≡◌, refl, ℤ, pos, ◌≤ℤ◌, Bool, true, false, inl, inr, Bool-cases, if◌then◌else◌, arith,
}
use kaka.Clock.{Duration, max_duration}
use kaka.Double.{Double, IsIeee, nat, ◌≼◌, nanos_per_second, whole_limit}

module _ {ℓ} {W : Type ℓ} ⦃d : Double W⦄ where
  unfoldable pub remaining_floor : W → ℤ
  remaining_floor value = if d.le value (nat 0) then pos 0 else d.to_int value

  unfoldable pub duration_from_seconds_ceil : W → Duration
  duration_from_seconds_ceil s =
      let nanos = d.mul s (nat nanos_per_second) in
      let rounded = d.round nanos in
      if d.le s (nat 0)
      then pos 0
      else if d.le (d.of_int max_duration) nanos
      then max_duration
      else if d.lt (d.abs (d.sub nanos rounded)) d.epsilon
      then d.to_int rounded
      else d.to_int (d.ceil nanos)

  module _ (laws : IsIeee W) where
    pub remaining_floor_whole : (a : ℕ) → a ≤ whole_limit → remaining_floor (nat a) ≡ pos a
    unfolding remaining_floor
    remaining_floor_whole a h = ground (arith, laws.le_whole a 0, laws.to_int_whole a)

    -- A wait that is not negative, be it infinite, is a time.Duration: the conversions to int64 are
    -- in range.
    pub duration_from_seconds_ceil-le :
        (s : W)
        → nat 0 ≼ s
        → (pos 0 ≤ℤ duration_from_seconds_ceil s) × (duration_from_seconds_ceil s ≤ℤ max_duration)
    unfolding duration_from_seconds_ceil
    duration_from_seconds_ceil-le s h =
        let nanos : W = d.mul s (nat nanos_per_second) in
        let large : d.lt (nat 0) (nat nanos_per_second) ≡ true =
          ground (arith, laws.lt_whole 0 nanos_per_second) in
        let above : nat 0 ≼ nanos =
          laws.mul_pos s (nat nanos_per_second) h large
            (laws.whole_finite nanos_per_second (omega arith)) in
        let number : nanos ≼ nanos = (laws.numbers_of_le (nat 0) nanos above).1 in
        let below = laws.lt-eq-not-le nanos (d.of_int max_duration) number laws.max_number in
        ground (
          arith,
          below,
          laws.round_fits nanos above,
          laws.ceil_fits nanos above,
          laws.to_int_fits (d.round nanos),
          laws.to_int_fits (d.ceil nanos),
        )
