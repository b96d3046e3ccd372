-- ===== src/Redis/Limiters/Tests.antt =====
-- redis/: the limiters over a script that records what it is asked, and the theorems at them.
use kaka.Prelude.{◌≡◌, refl, pos, ◌<ℤ◌, List, [], ◌∷◌, arith}
use kaka.Core.{Key}
use kaka.Key.{validate_redis}
use kaka.Key.Blank.{Spaces, is_blank, is_blank-Spaces}
use kaka.Double.{nat}
use kaka.Double.Whole.{Whole, whole_double, Whole-IsIeee}
use kaka.Memory.Numeric.Level.{Fits}
use kaka.Redis as Base
use kaka.Redis.{
  Options, default_options, Response, array, int64, Attempt, success, key_for, milliseconds,
  new_limiter, Setting,
}
use kaka.Redis.Limiters.{Arg, float, int, text, ScriptRunner}
use kaka.Redis.Limiters.TokenBucket as Token
use kaka.Redis.Limiters.TokenBucket.{TokenBucket, new_token_bucket}
use kaka.Redis.Limiters.LeakyBucket as Leaky
use kaka.Redis.Limiters.LeakyBucket.{LeakyBucket, new_leaky_bucket}
use kaka.Redis.Limiters.SlidingWindow as Window
use kaka.Redis.Limiters.SlidingWindow.{SlidingWindow, new_sliding_window}
use kaka.Redis.Limiters.Build.{Checks, new_limiters-Checks}
use kaka.Redis.Limiters.Serves.{Settles, limiters-Settles}

-- Lets everything through; the state is what it was asked last.
abbrev recorder : ScriptRunner Whole
recorder = record {
  State = List Key × List (Arg Whole);
  run = λ keys args s.
      (success (array (int64 (pos 1) ∷ int64 (pos 4) ∷ int64 (pos 0) ∷ [])), (keys, args));
}

abbrev user : Key
user = 117 ∷ []

abbrev token : TokenBucket Whole
token = record { base = default_options; capacity = nat 5; rate = nat 2 }

abbrev leaky : LeakyBucket Whole
leaky = record { base = default_options; capacity = nat 5; rate = nat 2 }

abbrev sliding : SlidingWindow
sliding = record { base = default_options; limit = pos 5; window = pos 2_500_000 }

sliding_test : (Window.allow recorder sliding (102 ∷ []) user ([], [])).state ≡ (
  (107 ∷ 97 ∷ 107 ∷ 97 ∷ 58 ∷ 117 ∷ []) ∷ [],
  int (pos 5) ∷ int (pos 2) ∷ int (pos 1_800_000) ∷ text (102 ∷ []) ∷ [],
)
unfolding Window.allow Base.allow key_for validate_redis is_blank
sliding_test = refl

user-Spaces : ¬ Spaces user
unfolding is_blank
user-Spaces w = ground (arith, (is_blank-Spaces user).1 w)

new_limiters-Checks_example :
    Checks
      (Fits {W = Whole} (nat 5) (nat 2))
      (record { base = new_limiter []; capacity = nat 5; rate = nat 2 })
      (new_token_bucket {W = Whole} (nat 5) (nat 2) [])
    × Checks
        (Fits {W = Whole} (nat 5) (nat 2))
        (record { base = new_limiter []; capacity = nat 5; rate = nat 2 })
        (new_leaky_bucket {W = Whole} (nat 5) (nat 2) [])
    × Checks
        ((pos 0 <ℤ pos 5) × (pos 0 <ℤ pos 7))
        (record { base = new_limiter []; limit = pos 5; window = pos 7 })
        (new_sliding_window (pos 5) (pos 7) [])
new_limiters-Checks_example = new_limiters-Checks Whole-IsIeee (nat 5) (nat 2) (pos 5) (pos 7) []

limiters-Settles_example :
    Settles token.base (Token.allow recorder token user ([], [])) (
      recorder.run
        (key_for token.base user ∷ [])
        (float token.capacity ∷ float token.rate ∷ int (milliseconds token.base.key_ttl) ∷ [])
        ([], []))
    × Settles leaky.base (Leaky.allow recorder leaky user ([], [])) (
        recorder.run
          (key_for leaky.base user ∷ [])
          (float leaky.capacity ∷ float leaky.rate ∷ int (milliseconds leaky.base.key_ttl) ∷ [])
          ([], []))
    × Settles sliding.base (Window.allow recorder sliding (102 ∷ []) user ([], [])) (
        recorder.run
          (key_for sliding.base user ∷ [])
          (int sliding.limit
            ∷ int (milliseconds sliding.window)
            ∷ int (milliseconds sliding.base.key_ttl)
            ∷ text (102 ∷ [])
            ∷ [])
          ([], []))
limiters-Settles_example =
    limiters-Settles recorder token leaky sliding (102 ∷ []) user ([], []) user-Spaces
