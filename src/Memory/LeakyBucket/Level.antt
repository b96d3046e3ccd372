-- ===== src/Memory/LeakyBucket/Level.antt =====
-- memory/leaky_bucket.go: the water in a bucket stays between nothing and the capacity, and what a
-- decision returns is in range.
use kaka.Prelude.{◌≡◌, refl, sym, pos, ◌≤ℤ◌, true, false, inl, inr, Bool-cases, arith}
use kaka.Core.{Result}
use kaka.Clock.{Time, time_sub, max_duration}
use kaka.Double.{Double, IsIeee, nat, ◌≼◌, seconds}
use kaka.Memory.Numeric.{duration_from_seconds_ceil, duration_from_seconds_ceil-le}
use kaka.Memory.Numeric.Level.{Fits, IsLevel, elapsed_nonneg, remaining_floor-le}
use kaka.Memory.LeakyBucket.{LeakyState, leaked, leak_and_decide}

module _ {W : Type 0} ⦃d : Double W⦄ where
  module _ (laws : IsIeee W) (capacity rate : W) (fits : Fits capacity rate) where
    pub leaked-IsLevel :
        (b : LeakyState W) (now : Time)
        → IsLevel capacity b.water
        → b.last_leak ≤ℤ now
        → IsLevel capacity (leaked rate b now)
    unfolding leaked
    leaked-IsLevel b now level h =
        let loss = d.mul (seconds (time_sub now b.last_leak)) rate in
        let water = d.sub b.water loss in
        let finite =
          laws.finite_below b.water capacity level.above level.below fits.capacity_finite in
        let gone : nat 0 ≼ loss = elapsed_nonneg laws capacity rate fits now b.last_leak h in
        let below : water ≼ capacity = laws.sub_le b.water loss capacity gone finite level.below in
        let number = laws.numbers_of_le water capacity below in
        let empty : ◌≼◌ {W = W} (nat 0) (nat 0) = ground (arith, laws.le_whole 0 0) in
        let full : nat 0 ≼ capacity =
          laws.trans (nat 0) (nat 1) capacity (ground (arith, laws.le_whole 0 1))
            fits.capacity_ge in
        record {
          above = ground (arith, laws.lt-eq-not-le water (nat 0) number.0 empty, empty);
          below = ground (arith, below, full);
        }

    -- The water over the capacity, with one drop more, makes a wait that is in range.
    retry_after-le :
        (x : W)
        → IsLevel capacity x
        → d.le (d.add x (nat 1)) capacity ≡ false
        → (pos 0 ≤ℤ duration_from_seconds_ceil (d.div (d.sub (d.add x (nat 1)) capacity) rate))
          × (duration_from_seconds_ceil (d.div (d.sub (d.add x (nat 1)) capacity) rate)
              ≤ℤ max_duration)
    retry_after-le x level over =
        let unit : ◌≼◌ {W = W} (nat 0) (nat 1) = ground (arith, laws.le_whole 0 1) in
        let more = d.add x (nat 1) in
        let above : nat 0 ≼ more = laws.add_nonneg x (nat 1) level.above unit in
        let number = laws.numbers_of_le (nat 0) more above in
        let top = laws.numbers_of_le x capacity level.below in
        let over_full : capacity ≼ more =
          ground (arith, laws.total more capacity number.1 top.1, over) in
        let full : nat 0 ≼ capacity = laws.trans (nat 0) (nat 1) capacity unit fits.capacity_ge in
        let x_finite = laws.finite_below x capacity level.above level.below fits.capacity_finite in
        let finite = laws.add_one_finite x x_finite in
        let overflow = d.sub more capacity in
        let positive : nat 0 ≼ overflow =
          laws.sub_nonneg more capacity over_full fits.capacity_finite in
        let small =
          laws.finite_below overflow more positive
            (laws.sub_le more capacity more full finite number.1) finite in
        duration_from_seconds_ceil-le laws (d.div overflow rate)
          (laws.div_nonneg overflow rate positive small fits.rate_pos fits.rate_finite)

    -- What a decision at `now` leaves and returns.
    pub record InRange (b : LeakyState W) (now : Time) (c : LeakyState W) (r : Result)
        : Type 0 where
      pub level : IsLevel capacity c.water
      pub stamped : c.last_leak ≡ now
      pub verdict : r.allowed ≡ d.le (d.add (leaked rate b now) (nat 1)) capacity
      pub remaining_above : pos 0 ≤ℤ r.remaining
      pub remaining_below : r.remaining ≤ℤ max_duration
      pub wait_above : pos 0 ≤ℤ r.retry_after
      pub wait_below : r.retry_after ≤ℤ max_duration

    -- For a bucket whose water is within the capacity and whose last request is not in the future, a
    -- decision keeps the water within the capacity, and both numbers of its result are within 0 and
    -- 2 ^ 63 - 1. (With a finite capacity of at least one and below 2 ^ 63, and a positive rate.)
    pub leak_and_decide-InRange :
        (b : LeakyState W) (now : Time)
        → IsLevel capacity b.water
        → b.last_leak ≤ℤ now
        → d.lt capacity (d.of_int max_duration) ≡ true
        → InRange b now
            (leak_and_decide capacity rate b now).0
            (leak_and_decide capacity rate b now).1
    unfolding leak_and_decide
    leak_and_decide-InRange b now level h small =
        let x = leaked rate b now in
        let full = leaked-IsLevel b now level h in
        let unit : ◌≼◌ {W = W} (nat 0) (nat 1) = ground (arith, laws.le_whole 0 1) in
        elim (Bool-cases (d.le (d.add x (nat 1)) capacity)) [
          | inl enough ↦
              let more = d.add x (nat 1) in
              let above : nat 0 ≼ more = laws.add_nonneg x (nat 1) full.above unit in
              let finite = laws.finite_below more capacity above enough fits.capacity_finite in
              let top = laws.numbers_of_le more capacity enough in
              let rest : IsLevel capacity (d.sub capacity more) = record {
                above = laws.sub_nonneg capacity more enough finite;
                below = laws.sub_le capacity more capacity above fits.capacity_finite top.1;
              } in
              let in_int64 =
                remaining_floor-le laws capacity rate fits (d.sub capacity more) rest small in
              rw (enough, leak_and_decide)
                (record {
                  level = record { above = above; below = enough };
                  stamped = refl;
                  verdict = sym enough;
                  remaining_above = in_int64.0;
                  remaining_below = in_int64.1;
                  wait_above = omega arith;
                  wait_below = omega arith;
                })
          | inr over ↦
              let wait = retry_after-le x full over in
              rw (over, leak_and_decide)
                (record {
                  level = full;
                  stamped = refl;
                  verdict = sym over;
                  remaining_above = omega arith;
                  remaining_below = omega arith;
                  wait_above = wait.0;
                  wait_below = wait.1;
                })
        ]
