-- ===== src/Memory/TokenBucket/Level.antt =====
-- memory/token_bucket.go: the level of a bucket stays between nothing and its capacity, and what a
-- decision returns is in range.
use kaka.Prelude.{◌≡◌, refl, sym, pos, ◌≤ℤ◌, true, false, inl, inr, Bool-cases, arith}
use kaka.Core.{Result}
use kaka.Clock.{Time, time_sub, max_duration}
use kaka.Double.{Double, IsIeee, nat, ◌≼◌, seconds}
use kaka.Memory.Numeric.{duration_from_seconds_ceil, duration_from_seconds_ceil-le}
use kaka.Memory.Numeric.Level.{Fits, IsLevel, elapsed_nonneg, remaining_floor-le}
use kaka.Memory.TokenBucket.{Bucket, refilled, refill_and_decide}

module _ {W : Type 0} ⦃d : Double W⦄ where
  module _ (laws : IsIeee W) (capacity rate : W) (fits : Fits capacity rate) where
    pub refilled-IsLevel :
        (b : Bucket W) (now : Time)
        → IsLevel capacity b.tokens
        → b.last_refilled ≤ℤ now
        → IsLevel capacity (refilled capacity rate b now)
    unfolding refilled
    refilled-IsLevel b now level h =
        let gain = d.mul (seconds (time_sub now b.last_refilled)) rate in
        let tokens = d.add b.tokens gain in
        let above : nat 0 ≼ tokens =
          laws.add_nonneg b.tokens gain level.above
            (elapsed_nonneg laws capacity rate fits now b.last_refilled h) in
        let full : nat 0 ≼ capacity =
          laws.trans (nat 0) (nat 1) capacity (ground (arith, laws.le_whole 0 1))
            fits.capacity_ge in
        let number = laws.numbers_of_le (nat 0) tokens above in
        let top = laws.numbers_of_le (nat 0) capacity full in
        record {
          above = ground (arith, above, full);
          below = ground (arith, laws.lt-eq-not-le capacity tokens top.1 number.1, top.1);
        }

    -- The tokens that are missing to one, at the rate, make a wait that is in range.
    retry_after-le :
        (x : W)
        → IsLevel capacity x
        → d.le (nat 1) x ≡ false
        → (pos 0 ≤ℤ duration_from_seconds_ceil (d.div (d.sub (nat 1) x) rate))
          × (duration_from_seconds_ceil (d.div (d.sub (nat 1) x) rate) ≤ℤ max_duration)
    retry_after-le x level less =
        let number = laws.numbers_of_le (nat 0) x level.above in
        let unit : ◌≼◌ {W = W} (nat 1) (nat 1) = ground (arith, laws.le_whole 1 1) in
        let at_most : x ≼ nat 1 = ground (arith, laws.total x (nat 1) number.1 unit, less) in
        let missing = d.sub (nat 1) x in
        let finite = laws.finite_below x capacity level.above level.below fits.capacity_finite in
        let above : nat 0 ≼ missing = laws.sub_nonneg (nat 1) x at_most finite in
        let below : missing ≼ nat 1 =
          laws.sub_le (nat 1) x (nat 1) level.above (laws.whole_finite 1 (omega arith)) unit in
        let small =
          laws.finite_below missing (nat 1) above below (laws.whole_finite 1 (omega arith)) in
        duration_from_seconds_ceil-le laws (d.div missing rate)
          (laws.div_nonneg missing rate above small fits.rate_pos fits.rate_finite)

    -- What a decision at `now` leaves and returns.
    pub record InRange (b : Bucket W) (now : Time) (c : Bucket W) (r : Result) : Type 0 where
      pub level : IsLevel capacity c.tokens
      pub stamped : c.last_refilled ≡ now
      pub verdict : r.allowed ≡ d.le (nat 1) (refilled capacity rate b now)
      pub remaining_above : pos 0 ≤ℤ r.remaining
      pub remaining_below : r.remaining ≤ℤ max_duration
      pub wait_above : pos 0 ≤ℤ r.retry_after
      pub wait_below : r.retry_after ≤ℤ max_duration

    -- For a bucket within the capacity whose last request is not in the future, a decision keeps the
    -- tokens within the capacity, grants exactly if the refilled bucket has a token, and both numbers of
    -- its result are within 0 and 2 ^ 63 - 1. (With a finite capacity of at least one and below 2 ^ 63,
    -- and a positive rate.)
    pub refill_and_decide-InRange :
        (b : Bucket W) (now : Time)
        → IsLevel capacity b.tokens
        → b.last_refilled ≤ℤ now
        → d.lt capacity (d.of_int max_duration) ≡ true
        → InRange b now
            (refill_and_decide capacity rate b now).0
            (refill_and_decide capacity rate b now).1
    unfolding refill_and_decide
    refill_and_decide-InRange b now level h small =
        let x = refilled capacity rate b now in
        let full = refilled-IsLevel b now level h in
        elim (Bool-cases (d.le (nat 1) x)) [
          | inl enough ↦
              let finite = laws.whole_finite 1 (omega arith) in
              let unit : ◌≼◌ {W = W} (nat 0) (nat 1) = ground (arith, laws.le_whole 0 1) in
              let rest : IsLevel capacity (d.sub x (nat 1)) = record {
                above = laws.sub_nonneg x (nat 1) enough finite;
                below =
                    laws.sub_le x (nat 1) capacity unit
                      (laws.finite_below x capacity full.above full.below fits.capacity_finite)
                      full.below;
              } in
              let fits_int =
                remaining_floor-le laws capacity rate fits (d.sub x (nat 1)) rest small in
              rw (enough, refill_and_decide)
                (record {
                  level = rest;
                  stamped = refl;
                  verdict = sym enough;
                  remaining_above = fits_int.0;
                  remaining_below = fits_int.1;
                  wait_above = omega arith;
                  wait_below = omega arith;
                })
          | inr less ↦
              let wait = retry_after-le x full less in
              rw (less, refill_and_decide)
                (record {
                  level = full;
                  stamped = refl;
                  verdict = sym less;
                  remaining_above = omega arith;
                  remaining_below = omega arith;
                  wait_above = wait.0;
                  wait_below = wait.1;
                })
        ]
