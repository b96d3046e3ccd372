-- ===== src/Redis/Limiters/LeakyBucket.antt =====
-- redis/leaky_bucket.go: the constructor and `Allow`.
use kaka.Prelude.{not, ◌||◌, List, [], ◌∷◌, if◌then◌else◌}
use kaka.Core.{Key, Built, built, panics}
use kaka.Double.{Double, nat, is_finite}
use kaka.Redis as Base
use kaka.Redis.{Options, Setting, new_limiter, Outcome}
use kaka.Redis.Limiters.{float, int, ScriptRunner, bound}

pub record LeakyBucket (W : Type 0) : Type 0 where
  pub base : Options
  pub capacity : W
  pub rate : W

module _ {W : Type 0} ⦃d : Double W⦄ where
  unfoldable pub new_leaky_bucket : W → W → List Setting → Built (LeakyBucket W)
  new_leaky_bucket capacity rate opts =
      if not (is_finite capacity) || d.lt capacity (nat 1)
      then panics "kaka/redis: leaky bucket capacity must be >= 1"
      else if not (is_finite rate) || d.le rate (nat 0)
      then panics "kaka/redis: leaky bucket rate must be > 0"
      else built (record { base = new_limiter opts; capacity = capacity; rate = rate })

unfoldable pub allow :
    {W : Type 0} (r : ScriptRunner W) → LeakyBucket W → Key → r.State → Outcome r.State
allow r lb key s =
    Base.allow lb.base (bound r (λ ttl_ms. float lb.capacity ∷ float lb.rate ∷ int ttl_ms ∷ [])) key
      s
