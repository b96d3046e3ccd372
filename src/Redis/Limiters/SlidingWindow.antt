-- ===== src/Redis/Limiters/SlidingWindow.antt =====
-- redis/sliding_window_log.go: the constructor and `Allow`. The salt of a request, a random number in
-- base 16, is an argument.
use kaka.Prelude.{ℤ, pos, leb_ℤ, List, [], ◌∷◌, if◌then◌else◌}
use kaka.Core.{Key, Built, built, panics}
use kaka.Clock.{Duration}
use kaka.Redis as Base
use kaka.Redis.{Options, Setting, new_limiter, milliseconds, Outcome}
use kaka.Redis.Limiters.{int, text, ScriptRunner, bound}

pub record SlidingWindow : Type 0 where
  pub base : Options
  pub limit : ℤ
  pub window : Duration

unfoldable pub new_sliding_window : ℤ → Duration → List Setting → Built SlidingWindow
new_sliding_window limit window opts =
    if leb_ℤ limit (pos 0)
    then panics "kaka/redis: sliding window limit must be > 0"
    else if leb_ℤ window (pos 0)
    then panics "kaka/redis: sliding window window must be > 0"
    else built (record { base = new_limiter opts; limit = limit; window = window })

unfoldable pub allow :
    {W : Type 0} (r : ScriptRunner W) → SlidingWindow → Key → Key → r.State → Outcome r.State
allow r sw member key s =
    Base.allow sw.base
      (bound r
        (λ ttl_ms. int sw.limit ∷ int (milliseconds sw.window) ∷ int ttl_ms ∷ text member ∷ []))
      key s
