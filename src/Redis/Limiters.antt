-- ===== src/Redis/Limiters.antt =====
-- redis/: what a limiter hands to its script. `scriptRunner` of script.go is a parameter.
pub mod TokenBucket
pub mod LeakyBucket
pub mod SlidingWindow
pub mod Build
pub mod Serves
mod Tests
use kaka.Prelude.{ℤ, List, [], ◌∷◌}
use kaka.Core.{Key}
use kaka.Redis.{Attempt, Response, Runner}

-- An argument of a script; `W` is float64.
pub data Arg (W : Type 0) : Type 0 where
  float : W → Arg W
  int : ℤ → Arg W
  text : Key → Arg W

-- `scriptRunner`: `Run` with the script's keys and its arguments.
pub record ScriptRunner (W : Type 0) : Type 1 where
  pub State : Type 0
  pub run : List Key → List (Arg W) → State → Attempt Response × State

-- A run for one key, with the arguments that a limiter puts around the time to live.
abbrev pub bound : {W : Type 0} → ScriptRunner W → (ℤ → List (Arg W)) → Runner
bound r args = record { State = r.State; run = λ key ttl_ms s. r.run (key ∷ []) (args ttl_ms) s }
