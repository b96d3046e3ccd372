-- ===== src/Memory/TokenBucket/Tests.antt =====
-- memory/token_bucket.go: runs of the limiter, and the theorems at concrete arguments.
use kaka.Prelude.{
  ◌≡◌, refl, ℕ, ◌+◌, ◌*◌, ◌≤◌, pos, ◌+ℤ◌, ◌-ℤ◌, true, false, none, List, [], ◌∷◌, arith,
}
use kaka.Core.{Key, built}
use kaka.Clock.{Time, time_sub}
use kaka.Double.{nat, seconds}
use kaka.Double.Whole.{Whole, whole_double, Whole-IsIeee}
use kaka.Memory.Options.{Options, default_options, with_max_keys, validate, configure}
use kaka.Memory.Options.Checks.{validate-Accepted}
use kaka.Memory.Shard.{KeyEntry}
use kaka.Memory.Shard.Cleaning.{Ranges-self}
use kaka.Memory.Numeric.{remaining_floor, duration_from_seconds_ceil}
use kaka.Memory.Numeric.Level.{Fits}
use kaka.Memory.Numeric.Whole.{count_verdicts, grants, sum}
use kaka.Memory.Store.{new_store}
use kaka.Memory.Limiter.Serves.{Upheld, Sound, new_store-Sound}
use kaka.Memory.TokenBucket.{
  Bucket, TokenBucket, full_bucket, refilled, refill_and_decide, new_token_bucket, allow,
}
use kaka.Memory.TokenBucket.Level.{InRange, refill_and_decide-InRange}
use kaka.Memory.TokenBucket.Whole.{verdicts, verdicts_quota}
use kaka.Memory.TokenBucket.Serves.{Within, Constructed, new_token_bucket-Fits, allow-Refills}

abbrev in_order : Time → List (Key × KeyEntry (Bucket Whole)) → List (Key × KeyEntry (Bucket Whole))
in_order now m = m

abbrev one_key : Options
one_key = record default_options { max_keys = pos 1; shards = pos 1; sink = true }

-- Two tokens, one of which comes back each second.
abbrev start : TokenBucket Whole
start = record { capacity = nat 2; rate = nat 1; opts = one_key; store = new_store one_key }

abbrev key_a : Key
key_a = 97 ∷ []

abbrev half_full : Bucket Whole
half_full = record { tokens = nat 1; last_refilled = pos 0 }

abbrev second : ℕ
second = 1_000_000_000

refill_and_decide_test :
    (refill_and_decide {W = Whole} (nat 2) (nat 1) half_full (pos (5 * second)) ≡ (
      record { tokens = nat 1; last_refilled = pos (5 * second) },
      record { allowed = true; remaining = pos 1; retry_after = pos 0 },
    ))
    × (refill_and_decide {W = Whole}
          (nat 2)
          (nat 1)
          (record { tokens = nat 0; last_refilled = pos 7 })
          (pos 7)
        ≡ (
          record { tokens = nat 0; last_refilled = pos 7 },
          record { allowed = false; remaining = pos 0; retry_after = pos second },
        ))
unfolding refill_and_decide refilled seconds time_sub ◌-ℤ◌ ◌+ℤ◌ remaining_floor
    duration_from_seconds_ceil
refill_and_decide_test = (refl, refl)

new_token_bucket_test :
    new_token_bucket {W = Whole} (nat 2) (nat 1) (with_max_keys (pos 3) ∷ [])
    ≡ built (record {
      capacity = nat 2;
      rate = nat 1;
      opts = record default_options { max_keys = pos 3 };
      store = new_store (record default_options { max_keys = pos 3 });
    })
unfolding new_token_bucket validate configure with_max_keys
new_token_bucket_test = refl

fits : Fits {W = Whole} (nat 2) (nat 1)
fits = record { capacity_finite = refl; capacity_ge = refl; rate_finite = refl; rate_pos = refl }

start-Accepted : validate one_key ≡ none
unfolding validate
start-Accepted = refl

start-Sound : Sound start.opts (Within start.capacity) start.store (pos 0)
start-Sound =
    new_store-Sound one_key (Within start.capacity) (pos 0)
      ((validate-Accepted one_key).0 start-Accepted)

new_token_bucket-Fits_example : Constructed {W = Whole} (nat 2) (nat 1) (with_max_keys (pos 3) ∷ [])
new_token_bucket-Fits_example =
    new_token_bucket-Fits Whole-IsIeee (nat 2) (nat 1) (with_max_keys (pos 3) ∷ [])

allow-Refills_example :
    Upheld start.opts
      (full_bucket start.capacity)
      (Within start.capacity)
      (InRange Whole-IsIeee start.capacity start.rate fits)
      start.store
      key_a
      (pos 5)
      (allow in_order start key_a (pos 5))
allow-Refills_example =
    allow-Refills Whole-IsIeee in_order (λ now. Ranges-self) start fits refl key_a (pos 5) (pos 0)
      (omega arith) start-Sound

refill_and_decide-InRange_example :
    InRange Whole-IsIeee
      (nat 2)
      (nat 1)
      fits
      half_full
      (pos second)
      (refill_and_decide (nat 2) (nat 1) half_full (pos second)).0
      (refill_and_decide (nat 2) (nat 1) half_full (pos second)).1
refill_and_decide-InRange_example =
    refill_and_decide-InRange Whole-IsIeee (nat 2) (nat 1) fits half_full (pos second)
      (record { above = refl; below = refl }) (omega arith) refl

abbrev gaps : List ℕ
gaps = 0 ∷ 0 ∷ 0 ∷ 1 ∷ 5 ∷ []

verdicts_quota_example :
    (verdicts {W = Whole} (nat 2) (nat 1) (full_bucket (nat 2) (pos 0)) gaps
      ≡ count_verdicts 2 1 2 gaps)
    × (grants (verdicts {W = Whole} (nat 2) (nat 1) (full_bucket (nat 2) (pos 0)) gaps)
        ≤ 2 + sum gaps * 1)
verdicts_quota_example = verdicts_quota Whole-IsIeee 2 1 (pos 0) gaps (omega arith) (omega arith)
