-- ===== src/Memory/LeakyBucket/Tests.antt =====
-- memory/leaky_bucket.go: runs of the limiter, and the theorems at concrete arguments.
use kaka.Prelude.{◌≡◌, refl, ℕ, ◌*◌, pos, ◌+ℤ◌, ◌-ℤ◌, true, false, none, List, [], ◌∷◌, arith}
use kaka.Core.{Key, built}
use kaka.Clock.{Time, time_sub}
use kaka.Double.{nat, seconds}
use kaka.Double.Whole.{Whole, whole_double, Whole-IsIeee}
use kaka.Memory.Options.{Options, default_options, with_max_keys, validate, configure}
use kaka.Memory.Options.Checks.{validate-Accepted}
use kaka.Memory.Shard.{KeyEntry}
use kaka.Memory.Shard.Cleaning.{Ranges-self}
use kaka.Memory.Numeric.{remaining_floor, duration_from_seconds_ceil}
use kaka.Memory.Numeric.Level.{Fits}
use kaka.Memory.Store.{new_store}
use kaka.Memory.Limiter.Serves.{Upheld, Sound, new_store-Sound}
use kaka.Memory.LeakyBucket.{
  LeakyState, LeakyBucket, empty_bucket, leaked, leak_and_decide, new_leaky_bucket, allow,
}
use kaka.Memory.LeakyBucket.Level.{InRange, leak_and_decide-InRange}
use kaka.Memory.LeakyBucket.Whole.{verdicts, verdicts_agree}
use kaka.Memory.TokenBucket.{full_bucket}
use kaka.Memory.TokenBucket.Whole as TokenBucket
use kaka.Memory.LeakyBucket.Serves.{Within, Constructed, new_leaky_bucket-Fits, allow-Leaks}

abbrev in_order :
    Time → List (Key × KeyEntry (LeakyState Whole)) → List (Key × KeyEntry (LeakyState Whole))
in_order now m = m

abbrev one_key : Options
one_key = record default_options { max_keys = pos 1; shards = pos 1; sink = true }

-- Room for two requests, one of which leaks each second.
abbrev start : LeakyBucket Whole
start = record { capacity = nat 2; rate = nat 1; opts = one_key; store = new_store one_key }

abbrev key_a : Key
key_a = 97 ∷ []

abbrev half_empty : LeakyState Whole
half_empty = record { water = nat 1; last_leak = pos 0 }

abbrev second : ℕ
second = 1_000_000_000

leak_and_decide_test :
    (leak_and_decide {W = Whole} (nat 2) (nat 1) half_empty (pos (5 * second)) ≡ (
      record { water = nat 1; last_leak = pos (5 * second) },
      record { allowed = true; remaining = pos 1; retry_after = pos 0 },
    ))
    × (leak_and_decide {W = Whole}
          (nat 2)
          (nat 1)
          (record { water = nat 2; last_leak = pos 7 })
          (pos 7)
        ≡ (
          record { water = nat 2; last_leak = pos 7 },
          record { allowed = false; remaining = pos 0; retry_after = pos second },
        ))
unfolding leak_and_decide leaked seconds time_sub ◌-ℤ◌ ◌+ℤ◌ remaining_floor
    duration_from_seconds_ceil
leak_and_decide_test = (refl, refl)

new_leaky_bucket_test :
    new_leaky_bucket {W = Whole} (nat 2) (nat 1) (with_max_keys (pos 3) ∷ [])
    ≡ built (record {
      capacity = nat 2;
      rate = nat 1;
      opts = record default_options { max_keys = pos 3 };
      store = new_store (record default_options { max_keys = pos 3 });
    })
unfolding new_leaky_bucket validate configure with_max_keys
new_leaky_bucket_test = refl

fits : Fits {W = Whole} (nat 2) (nat 1)
fits = record { capacity_finite = refl; capacity_ge = refl; rate_finite = refl; rate_pos = refl }

start-Accepted : validate one_key ≡ none
unfolding validate
start-Accepted = refl

start-Sound : Sound start.opts (Within start.capacity) start.store (pos 0)
start-Sound =
    new_store-Sound one_key (Within start.capacity) (pos 0)
      ((validate-Accepted one_key).0 start-Accepted)

new_leaky_bucket-Fits_example : Constructed {W = Whole} (nat 2) (nat 1) (with_max_keys (pos 3) ∷ [])
new_leaky_bucket-Fits_example =
    new_leaky_bucket-Fits Whole-IsIeee (nat 2) (nat 1) (with_max_keys (pos 3) ∷ [])

allow-Leaks_example :
    Upheld start.opts empty_bucket
      (Within start.capacity)
      (InRange Whole-IsIeee start.capacity start.rate fits)
      start.store
      key_a
      (pos 5)
      (allow in_order start key_a (pos 5))
allow-Leaks_example =
    allow-Leaks Whole-IsIeee in_order (λ now. Ranges-self) start fits refl key_a (pos 5) (pos 0)
      (omega arith) start-Sound

leak_and_decide-InRange_example :
    InRange Whole-IsIeee
      (nat 2)
      (nat 1)
      fits
      half_empty
      (pos second)
      (leak_and_decide (nat 2) (nat 1) half_empty (pos second)).0
      (leak_and_decide (nat 2) (nat 1) half_empty (pos second)).1
leak_and_decide-InRange_example =
    leak_and_decide-InRange Whole-IsIeee (nat 2) (nat 1) fits half_empty (pos second)
      (record { above = refl; below = refl }) (omega arith) refl

abbrev gaps : List ℕ
gaps = 0 ∷ 0 ∷ 0 ∷ 1 ∷ 5 ∷ []

verdicts_agree_example :
    verdicts {W = Whole} (nat 2) (nat 1) (empty_bucket (pos 0)) gaps
    ≡ TokenBucket.verdicts {W = Whole} (nat 2) (nat 1) (full_bucket (nat 2) (pos 0)) gaps
verdicts_agree_example =
    verdicts_agree Whole-IsIeee 2 1 (pos 0) gaps (omega arith) (omega arith) (omega arith)
      (omega arith)
