-- ===== src/Redis/Limiters/Build.antt =====
-- redis/: which arguments the three constructors accept.
use kaka.Prelude.{◌≡◌, refl, ◌⊎◌, inl, inr, ℤ, pos, ◌<ℤ◌, leb_ℤ, not, ◌||◌, List, Bool-cases, arith}
use Prim.Native.String.{String}
use kaka.Core.{Built, built, panics}
use kaka.Clock.{Duration}
use kaka.Double.{Double, IsIeee, nat, is_finite}
use kaka.Memory.Numeric.Level.{Fits, Fits-checked, capacity_checked, rate_checked}
use kaka.Redis.{Setting, new_limiter}
use kaka.Redis.Limiters.TokenBucket.{new_token_bucket}
use kaka.Redis.Limiters.LeakyBucket.{new_leaky_bucket}
use kaka.Redis.Limiters.SlidingWindow.{new_sliding_window}

-- A constructor that panics unless `P`, and otherwise returns `x`.
abbrev pub Checks : {A : Type 0} → Type 0 → A → Built A → Type 0
Checks P x b = ((message : String) × (b ≡ panics message) × (¬ P)) ⊎ ((b ≡ built x) × P)

module _ {W : Type 0} ⦃d : Double W⦄ (laws : IsIeee W) (capacity rate : W)
    (opts : List Setting) where
  new_token_bucket-Checks :
      Checks
        (Fits capacity rate)
        (record { base = new_limiter opts; capacity = capacity; rate = rate })
        (new_token_bucket capacity rate opts)
  unfolding new_token_bucket
  new_token_bucket-Checks = elim (Bool-cases (not (is_finite capacity) || d.lt capacity (nat 1))) [
    | inl p ↦ inl (
      "kaka/redis: token bucket capacity must be >= 1",
      rw p refl,
      capacity_checked laws capacity rate p,
    )
    | inr p ↦ elim (Bool-cases (not (is_finite rate) || d.le rate (nat 0))) [
      | inl q ↦ inl (
        "kaka/redis: token bucket rate must be > 0",
        rw (p, q) refl,
        rate_checked laws capacity rate q,
      )
      | inr q ↦ inr (rw (p, q) refl, Fits-checked laws capacity rate p q)
    ]
  ]

  new_leaky_bucket-Checks :
      Checks
        (Fits capacity rate)
        (record { base = new_limiter opts; capacity = capacity; rate = rate })
        (new_leaky_bucket capacity rate opts)
  unfolding new_leaky_bucket
  new_leaky_bucket-Checks = elim (Bool-cases (not (is_finite capacity) || d.lt capacity (nat 1))) [
    | inl p ↦ inl (
      "kaka/redis: leaky bucket capacity must be >= 1",
      rw p refl,
      capacity_checked laws capacity rate p,
    )
    | inr p ↦ elim (Bool-cases (not (is_finite rate) || d.le rate (nat 0))) [
      | inl q ↦ inl (
        "kaka/redis: leaky bucket rate must be > 0",
        rw (p, q) refl,
        rate_checked laws capacity rate q,
      )
      | inr q ↦ inr (rw (p, q) refl, Fits-checked laws capacity rate p q)
    ]
  ]

new_sliding_window-Checks :
    (limit : ℤ) (window : Duration) (opts : List Setting)
    → Checks
        ((pos 0 <ℤ limit) × (pos 0 <ℤ window))
        (record { base = new_limiter opts; limit = limit; window = window })
        (new_sliding_window limit window opts)
unfolding new_sliding_window
new_sliding_window-Checks limit window opts = elim (Bool-cases (leb_ℤ limit (pos 0))) [
  | inl p ↦
      inl ("kaka/redis: sliding window limit must be > 0", rw p refl, λ f. ground (arith, f.0))
  | inr p ↦ elim (Bool-cases (leb_ℤ window (pos 0))) [
    | inl q ↦
        inl (
          "kaka/redis: sliding window window must be > 0",
          rw (p, q) refl,
          λ f. ground (arith, f.1),
        )
    | inr q ↦ inr (rw (p, q) refl, (ground arith, ground arith))
  ]
]

-- The constructors of the two buckets panic exactly if the capacity is not a finite number of at least
-- one or the rate is not a finite number above zero, and that of the sliding window exactly if the limit
-- or the window is not positive; otherwise each returns a limiter with its arguments and options.
pub new_limiters-Checks :
    {W : Type 0} ⦃d : Double W⦄ (laws : IsIeee W) (capacity rate : W) (limit : ℤ)
    (window : Duration) (opts : List Setting)
    → Checks
        (Fits capacity rate)
        (record { base = new_limiter opts; capacity = capacity; rate = rate })
        (new_token_bucket capacity rate opts)
      × Checks
          (Fits capacity rate)
          (record { base = new_limiter opts; capacity = capacity; rate = rate })
          (new_leaky_bucket capacity rate opts)
      × Checks
          ((pos 0 <ℤ limit) × (pos 0 <ℤ window))
          (record { base = new_limiter opts; limit = limit; window = window })
          (new_sliding_window limit window opts)
new_limiters-Checks laws capacity rate limit window opts = (
  new_token_bucket-Checks laws capacity rate opts,
  new_leaky_bucket-Checks laws capacity rate opts,
  new_sliding_window-Checks limit window opts,
)
