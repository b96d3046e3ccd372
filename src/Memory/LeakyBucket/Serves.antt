-- ===== src/Memory/LeakyBucket/Serves.antt =====
-- memory/leaky_bucket.go: which arguments `NewLeakyBucket` accepts, and what `Allow` does on its store.
use kaka.Prelude.{
  ◌≡◌, refl, ◌⊎◌, inl, inr, ◌≤ℤ◌, true, not, ◌||◌, List, Bool-cases, Option-cases, arith,
}
use Prim.Native.String.{String}
use kaka.Core.{Key, built, panics}
use kaka.Clock.{Time, max_duration}
use kaka.Double.{Double, IsIeee, nat, ◌≼◌, is_finite}
use kaka.Memory.Options.{Options, Setting, configure, validate}
use kaka.Memory.Options.Checks.{Accepted, validate-Accepted}
use kaka.Memory.Shard.{KeyEntry}
use kaka.Memory.Shard.Cleaning.{Ranges}
use kaka.Memory.Numeric.Level.{Fits, IsLevel, Fits-checked, capacity_checked, rate_checked}
use kaka.Memory.Store.{new_store}
use kaka.Memory.Limiter.Serves.{Kept, Sound, Upheld, new_store-Sound, allow-Upheld}
use kaka.Memory.LeakyBucket.{
  LeakyState, LeakyBucket, empty_bucket, leak_and_decide, new_leaky_bucket, allow,
}
use kaka.Memory.LeakyBucket.Level.{InRange, leak_and_decide-InRange}

module _ {W : Type 0} ⦃d : Double W⦄ where
  -- A bucket at the time of its last request, or after it.
  abbrev pub Within : W → Time → LeakyState W → Type 0
  Within capacity last b = IsLevel capacity b.water × (b.last_leak ≤ℤ last)

  module _ (laws : IsIeee W) (capacity rate : W) (fits : Fits capacity rate)
      (small : d.lt capacity (d.of_int max_duration) ≡ true) where
    leak_and_decide-Kept :
        Kept empty_bucket
          (leak_and_decide capacity rate)
          (Within capacity)
          (InRange laws capacity rate fits)
    leak_and_decide-Kept =
        let full : nat 0 ≼ capacity =
          laws.trans (nat 0) (nat 1) capacity (ground (arith, laws.le_whole 0 1))
            fits.capacity_ge in
        record {
          created = λ now. (
            record { above = (laws.numbers_of_le (nat 0) capacity full).0; below = full },
            omega arith,
          );
          later = λ b last now h w. (w.0, omega (arith, h, w.1));
          decided = λ b now w.
              let r = leak_and_decide-InRange laws capacity rate fits b now w.0 w.1 small in
              (r.level, rw r.stamped (omega arith));
          promised = λ b now w. leak_and_decide-InRange laws capacity rate fits b now w.0 w.1 small;
        }

-- A limiter with its arguments.
pub record Fresh {W : Type 0} (capacity rate : W) (o : Options) (lb : LeakyBucket W) : Type 0 where
  pub capacity_kept : lb.capacity ≡ capacity
  pub rate_kept : lb.rate ≡ rate
  pub opts_kept : lb.opts ≡ o
  pub empty : lb.store ≡ new_store o

abbrev pub Constructed : {W : Type 0} ⦃d : Double W⦄ → W → W → List Setting → Type 0
Constructed {W} capacity rate opts =
    ((message : String) × (new_leaky_bucket capacity rate opts ≡ panics message)
      × (¬ (Fits capacity rate × Accepted (configure opts))))
    ⊎ ((lb : LeakyBucket W) × (new_leaky_bucket capacity rate opts ≡ built lb)
        × Fits capacity rate
        × Accepted (configure opts)
        × Fresh capacity rate (configure opts) lb
        × ((first : Time) → Sound lb.opts (Within capacity) lb.store first))

-- The constructor panics exactly if the capacity is not a finite number of at least one, or the rate
-- is not a finite number above zero, or the options are not acceptable, and otherwise builds a limiter
-- with these arguments whose store is empty and sound.
pub new_leaky_bucket-Fits :
    {W : Type 0} ⦃d : Double W⦄ (laws : IsIeee W) (capacity rate : W) (opts : List Setting)
    → Constructed capacity rate opts
unfolding new_leaky_bucket
new_leaky_bucket-Fits {W} ⦃d⦄ laws capacity rate opts =
    let o = configure opts in
    elim (Bool-cases (not (is_finite capacity) || d.lt capacity (nat 1))) [
      | inl p ↦ inl (
        "memory: leaky bucket capacity must be >= 1",
        rw p,
        λ f. capacity_checked laws capacity rate p f.0,
      )
      | inr p ↦ elim (Bool-cases (not (is_finite rate) || d.le rate (nat 0))) [
        | inl q ↦ inl (
          "memory: leaky bucket rate must be > 0",
          rw (p, q),
          λ f. rate_checked laws capacity rate q f.0,
        )
        | inr q ↦ elim (Option-cases (validate o)) [
          | inr (m, v) ↦ inl (m, rw (p, q, v), λ f. cc ((validate-Accepted o).1 f.1, v))
          | inl v ↦
              let accepted = (validate-Accepted o).0 v in
              inr (
                record { capacity = capacity; rate = rate; opts = o; store = new_store o },
                rw (p, q, v),
                Fits-checked laws capacity rate p q,
                accepted,
                record { capacity_kept = refl; rate_kept = refl; opts_kept = refl; empty = refl },
                λ first. new_store-Sound o (Within capacity) first accepted,
              )
        ]
      ]
    ]

module _ {W : Type 0} ⦃d : Double W⦄ where
  module _ (laws : IsIeee W)
      (visit : Time → List (Key × KeyEntry (LeakyState W)) → List (Key × KeyEntry (LeakyState W)))
      (ranges : (now : Time) → Ranges (visit now)) (lb : LeakyBucket W)
      (fits : Fits lb.capacity lb.rate) (small : d.lt lb.capacity (d.of_int max_duration) ≡ true)
      (key : Key) (now last : Time) (forward : last ≤ℤ now) where
    -- Whatever the keys and the order of the requests, a request to a leaky bucket limiter whose
    -- buckets are within the capacity is answered, with no run-time panic, and leaves the buckets
    -- within the capacity: a blank key is refused; the bucket of the key itself, or an empty one if the
    -- store has none, decides, and what remains of it is kept, with both numbers of the result within
    -- 0 and 2 ^ 63 - 1; or the key is new and is refused, in EvictReject mode alone, with the store at
    -- its limit. (With a finite capacity of at least one and below 2 ^ 63, and a positive rate, while
    -- the clock does not go back; the runtime ranges over entries of the map, in any order.)
    pub allow-Leaks :
        Sound lb.opts (Within lb.capacity) lb.store last
        → Upheld lb.opts empty_bucket
            (Within lb.capacity)
            (InRange laws lb.capacity lb.rate fits)
            lb.store
            key
            now
            (allow visit lb key now)
    unfolding allow
    allow-Leaks sound =
        allow-Upheld visit ranges lb.opts empty_bucket (leak_and_decide lb.capacity lb.rate)
          (Within lb.capacity) (InRange laws lb.capacity lb.rate fits)
          (leak_and_decide-Kept laws lb.capacity lb.rate fits small) lb.store key now last forward
          sound
