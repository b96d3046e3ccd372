-- ===== src/Memory/Numeric/Level.antt =====
-- memory/token_bucket.go and memory/leaky_bucket.go: what the levels of the two buckets have in common.
use kaka.Prelude.{ℕ, ◌≡◌, pos, pos_part, ◌-ℤ◌, ◌≤ℤ◌, -ℤ_parts, true, false, not, ◌||◌, arith}
use kaka.Clock.{Time, time_sub, max_duration}
use kaka.Double.{Double, is_finite, IsIeee, nat, ◌≼◌, seconds}
use kaka.Memory.Numeric.{remaining_floor}

-- Time that has passed is not negative.
pub time_sub_later :
    (now last : Time)
    → last ≤ℤ now
    → (n : ℕ) × (time_sub now last ≡ pos n) × (pos n ≤ℤ max_duration)
unfolding time_sub
time_sub_later now last h =
    let less : now -ℤ last ≡ pos (pos_part (now -ℤ last)) = ground (arith, -ℤ_parts now last) in
    (pos_part (time_sub now last), ground (arith, less), ground (arith, less))

module _ {W : Type 0} ⦃d : Double W⦄ where
  -- What the constructor checks.
  pub record Fits (capacity rate : W) : Type 0 where
    pub capacity_finite : d.is_inf capacity ≡ false
    pub capacity_ge : nat 1 ≼ capacity
    pub rate_finite : d.is_inf rate ≡ false
    pub rate_pos : d.lt (nat 0) rate ≡ true

  pub record IsLevel (capacity : W) (x : W) : Type 0 where
    pub above : nat 0 ≼ x
    pub below : x ≼ capacity

  module _ (laws : IsIeee W) (capacity rate : W) (fits : Fits capacity rate) where
    pub elapsed_nonneg :
        (now last : Time)
        → last ≤ℤ now
        → ◌≼◌ {W = W} (nat 0) (d.mul (seconds (time_sub now last)) rate)
    elapsed_nonneg now last h =
        let (n, e, fits_int) = time_sub_later now last h in
        let s = laws.seconds_nonneg n fits_int in
        rw e (laws.mul_pos (seconds (pos n)) rate s.0 fits.rate_pos fits.rate_finite)

    -- A level is below 2 ^ 63 if the capacity is, so that its conversion is in range.
    pub remaining_floor-le :
        (x : W)
        → IsLevel capacity x
        → d.lt capacity (d.of_int max_duration) ≡ true
        → (pos 0 ≤ℤ remaining_floor x) × (remaining_floor x ≤ℤ max_duration)
    unfolding remaining_floor
    remaining_floor-le x level small =
        let number = laws.numbers_of_le (nat 0) x level.above in
        let top = laws.numbers_of_le x capacity level.below in
        let below : d.lt x (d.of_int max_duration) ≡ true = ground (
          arith,
          laws.lt-eq-not-le x (d.of_int max_duration) number.1 laws.max_number,
          laws.lt-eq-not-le capacity (d.of_int max_duration) top.1 laws.max_number,
          laws.trans (d.of_int max_duration) x capacity,
        ) in
        ground (arith, laws.to_int_fits x level.above below)

  module _ (laws : IsIeee W) (capacity rate : W) where
    -- The constructors' checks let exactly these arguments through.
    pub Fits-checked :
        ((not (is_finite capacity) || d.lt capacity (nat 1)) ≡ false)
        → ((not (is_finite rate) || d.le rate (nat 0)) ≡ false)
        → Fits capacity rate
    Fits-checked c r =
        let unit : ◌≼◌ {W = W} (nat 1) (nat 1) = ground (arith, laws.le_whole 1 1) in
        let empty : ◌≼◌ {W = W} (nat 0) (nat 0) = ground (arith, laws.le_whole 0 0) in
        record {
          capacity_finite = ground (arith, c);
          capacity_ge = ground (arith, c, unit, laws.lt-eq-not-le capacity (nat 1));
          rate_finite = ground (arith, r);
          rate_pos = ground (arith, r, empty, laws.lt-eq-not-le (nat 0) rate);
        }

    pub capacity_checked :
        (not (is_finite capacity) || d.lt capacity (nat 1)) ≡ true → ¬ Fits capacity rate
    capacity_checked c f =
        let number = laws.numbers_of_le (nat 1) capacity f.capacity_ge in
        ground (
          arith,
          c,
          f.capacity_finite,
          f.capacity_ge,
          number.0,
          number.1,
          laws.lt-eq-not-le capacity (nat 1),
        )

    pub rate_checked : (not (is_finite rate) || d.le rate (nat 0)) ≡ true → ¬ Fits capacity rate
    rate_checked r f =
        let number = laws.numbers_of_lt (nat 0) rate f.rate_pos in
        ground
          (arith, r, f.rate_finite, f.rate_pos, number.0, number.1, laws.lt-eq-not-le (nat 0) rate)
