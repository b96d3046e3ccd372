-- ===== src/Memory/LeakyBucket.antt =====
-- memory/leaky_bucket.go: the constructor, the decision on one key's bucket, and `Allow`.
pub mod Level
pub mod Whole
pub mod Serves
mod Tests
use kaka.Prelude.{
  ℤ, pos, Bool, true, false, not, ◌||◌, Option, none, some, List, [], ◌∷◌, if◌then◌else◌,
}
use kaka.Core.{Key, Result, Reply, Event, Built, built, panics}
use kaka.Clock.{Time, Duration, time_sub}
use kaka.Double.{Double, nat, is_finite, seconds}
use kaka.Memory.Options.{Options, Setting, configure, validate}
use kaka.Memory.Shard.{KeyEntry}
use kaka.Memory.Numeric.{remaining_floor, duration_from_seconds_ceil}
use kaka.Memory.Store.{Store, new_store}
use kaka.Memory.Limiter

pub record LeakyState (W : Type 0) : Type 0 where
  pub water : W
  pub last_leak : Time

pub record LeakyBucket (W : Type 0) : Type 0 where
  pub capacity : W
  pub rate : W
  pub opts : Options
  pub store : Store (LeakyState W)

module _ {W : Type 0} ⦃d : Double W⦄ where
  abbrev pub empty_bucket : Time → LeakyState W
  empty_bucket now = record { water = nat 0; last_leak = now }

  unfoldable pub new_leaky_bucket : W → W → List Setting → Built (LeakyBucket W)
  new_leaky_bucket capacity rate opts =
      if not (is_finite capacity) || d.lt capacity (nat 1)
      then panics "memory: leaky bucket capacity must be >= 1"
      else if not (is_finite rate) || d.le rate (nat 0)
      then panics "memory: leaky bucket rate must be > 0"
      else (let o = configure opts in
          elim (validate o) [
            | some message ↦ panics message
            | none ↦
                built (record { capacity = capacity; rate = rate; opts = o; store = new_store o })
          ])

  -- The water after the leak.
  unfoldable pub leaked : W → LeakyState W → Time → W
  leaked rate b now =
      let elapsed = seconds (time_sub now b.last_leak) in
      let water = d.sub b.water (d.mul elapsed rate) in if d.lt water (nat 0) then nat 0 else water

  unfoldable pub leak_and_decide : W → W → LeakyState W → Time → LeakyState W × Result
  unfolding leaked
  leak_and_decide capacity rate b now =
      let water = leaked rate b now in
      if d.le (d.add water (nat 1)) capacity
      then (
        record { water = d.add water (nat 1); last_leak = now },
        record {
          allowed = true;
          remaining = remaining_floor (d.sub capacity (d.add water (nat 1)));
          retry_after = pos 0;
        },
      )
      else (
        record { water = water; last_leak = now },
        record {
          allowed = false;
          remaining = pos 0;
          retry_after =
              duration_from_seconds_ceil (d.div (d.sub (d.add water (nat 1)) capacity) rate);
        },
      )

  unfoldable pub allow :
      (Time → List (Key × KeyEntry (LeakyState W)) → List (Key × KeyEntry (LeakyState W)))
      → LeakyBucket W
      → Key
      → Time
      → Option (Store (LeakyState W) × Reply × List Event)
  unfolding leak_and_decide
  allow visit lb key now =
      Limiter.allow visit lb.opts empty_bucket (leak_and_decide lb.capacity lb.rate) lb.store key
        now
