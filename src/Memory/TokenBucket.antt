-- ===== src/Memory/TokenBucket.antt =====
-- memory/token_bucket.go: the constructor, the decision on one key's bucket, and `Allow`.
pub mod Level
pub mod Whole
pub mod Serves
mod Tests
use kaka.Prelude.{
  ℤ, pos, Bool, true, false, not, ◌||◌, Option, none, some, List, [], ◌∷◌, if◌then◌else◌,
}
use kaka.Core.{Key, Result, Reply, Event, Built, built, panics}
use kaka.Clock.{Time, Duration, time_sub}
use kaka.Double.{Double, nat, is_finite, seconds}
use kaka.Memory.Options.{Options, Setting, configure, validate}
use kaka.Memory.Shard.{KeyEntry}
use kaka.Memory.Numeric.{remaining_floor, duration_from_seconds_ceil}
use kaka.Memory.Store.{Store, new_store}
use kaka.Memory.Limiter

-- `bucket`
pub record Bucket (W : Type 0) : Type 0 where
  pub tokens : W
  pub last_refilled : Time

pub record TokenBucket (W : Type 0) : Type 0 where
  pub capacity : W
  pub rate : W
  pub opts : Options
  pub store : Store (Bucket W)

module _ {W : Type 0} ⦃d : Double W⦄ where
  abbrev pub full_bucket : W → Time → Bucket W
  full_bucket capacity now = record { tokens = capacity; last_refilled = now }

  unfoldable pub new_token_bucket : W → W → List Setting → Built (TokenBucket W)
  new_token_bucket capacity rate opts =
      if not (is_finite capacity) || d.lt capacity (nat 1)
      then panics "memory: token bucket capacity must be >= 1"
      else if not (is_finite rate) || d.le rate (nat 0)
      then panics "memory: token bucket rate must be > 0"
      else (let o = configure opts in
          elim (validate o) [
            | some message ↦ panics message
            | none ↦
                built (record { capacity = capacity; rate = rate; opts = o; store = new_store o })
          ])

  -- The tokens after the refill.
  unfoldable pub refilled : W → W → Bucket W → Time → W
  refilled capacity rate b now =
      let elapsed = seconds (time_sub now b.last_refilled) in
      let tokens = d.add b.tokens (d.mul elapsed rate) in
      if d.lt capacity tokens then capacity else tokens

  unfoldable pub refill_and_decide : W → W → Bucket W → Time → Bucket W × Result
  unfolding refilled
  refill_and_decide capacity rate b now =
      let tokens = refilled capacity rate b now in
      if d.le (nat 1) tokens
      then (
        record { tokens = d.sub tokens (nat 1); last_refilled = now },
        record {
          allowed = true;
          remaining = remaining_floor (d.sub tokens (nat 1));
          retry_after = pos 0;
        },
      )
      else (
        record { tokens = tokens; last_refilled = now },
        record {
          allowed = false;
          remaining = pos 0;
          retry_after = duration_from_seconds_ceil (d.div (d.sub (nat 1) tokens) rate);
        },
      )

  unfoldable pub allow :
      (Time → List (Key × KeyEntry (Bucket W)) → List (Key × KeyEntry (Bucket W)))
      → TokenBucket W
      → Key
      → Time
      → Option (Store (Bucket W) × Reply × List Event)
  unfolding refill_and_decide
  allow visit tb key now =
      Limiter.allow visit tb.opts (full_bucket tb.capacity) (refill_and_decide tb.capacity tb.rate)
        tb.store key now
