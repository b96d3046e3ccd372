-- ===== src/Middleware.antt =====
-- middleware/: the adapters for net/http, Gin, Echo and Fiber, which share one request handler.
-- What a handler does to the exchange is the list of its calls, in order: those on the response, and
-- those of the configured functions and of the next handler, whose own effects are theirs. In Echo
-- and Fiber the handler returns what `next` returns if it calls it, and nil if it does not.
-- In Gin the rest of the chain also runs when the handler returns, unless something has called `Abort()`.
pub mod Http
pub mod Gin
pub mod Echo
pub mod Fiber
pub mod Verdict
mod Tests
use kaka.Prelude.{
  ℕ, ℤ, pos, ltb_ℤ, Bool, not, ◌&&◌, Option, none, some, List, [], ◌∷◌, ◌++◌, if◌then◌else◌,
}
use kaka.Core.{Key, Result, Error, Limiter}
use kaka.Clock.{Duration}
use kaka.Double.{Double, seconds}
use Prim.Native.String.{String}

pub data Value : Type 0 where
  number : ℤ → Value
  text : String → Value

pub data Action : Type 0 where
  set_header : String → Value → Action
  set_status : ℕ → Action
  write_json_error : String → Action
  call_denied : Option Result → Action
  call_error : Error → Action
  call_next : Action
  -- Gin's `Abort()`: what remains of the chain is not run
  abort : Action

-- `Config`: of the two handlers only whether they are nil is kept.
pub record Config (Req : Type 0) : Type 1 where
  pub limiter : Option Limiter
  pub key_func : Option (Req → Key)
  pub denied_handler : Bool
  pub error_handler : Bool
  pub disable_headers : Bool

-- The configuration with its defaults filled in.
pub record Ready (Req : Type 0) : Type 1 where
  pub limiter : Limiter
  pub key_func : Req → Key
  pub denied : Result → List Action
  pub error_handler : Bool
  pub disable_headers : Bool

pub record Served (S : Type 0) : Type 0 where
  pub actions : List Action
  pub state : S

abbrev pub too_many_requests : ℕ
too_many_requests = 429

abbrev pub denied_message : String
denied_message = "too many requests"

-- The handlers compute with float64, which is `W`.
module _ (W : Type 0) ⦃float : Double W⦄ where
  unfoldable pub retry_after_seconds : Duration → ℤ
  unfolding seconds
  retry_after_seconds d =
      let rounded = float.to_int (float.ceil (seconds d)) in
      if ltb_ℤ rounded (pos 1) then pos 1 else rounded

  unfoldable pub headers : Bool → Result → List Action
  headers disabled r =
      if disabled
      then []
      else set_header "X-RateLimit-Remaining" (number r.remaining)
        ∷ (if not r.allowed && ltb_ℤ (pos 0) r.retry_after
            then set_header "Retry-After" (number (retry_after_seconds r.retry_after)) ∷ []
            else [])

  unfoldable pub serve :
      {Req : Type 0} (c : Ready Req) → Req → c.limiter.State → Served c.limiter.State
  serve c req s =
      let (reply, t) = c.limiter.allow (c.key_func req) s in
      elim reply.err [
        | some e ↦ record {
          actions = (if c.error_handler then call_error e else call_next) ∷ [];
          state = t;
        }
        | none ↦ record {
          actions =
              headers c.disable_headers reply.result
              ++ (if not reply.result.allowed then c.denied reply.result else call_next ∷ []);
          state = t;
        }
      ]
