-- ===== src/Middleware/Verdict.antt =====
-- middleware/: how often the next handler runs, whatever the adapter.
use kaka.Prelude.{
  ℕ, suc, ◌≡◌, Bool, true, false, not, ◌&&◌, ◌||◌, none, some, List, [], ◌∷◌, if◌then◌else◌, ◌==◌,
}
use kaka.Core.{Key, Reply, Limiter, granted, denied_reply}
use kaka.Double.{Double}
use kaka.Middleware.{
  Action, set_header, set_status, write_json_error, call_denied, call_error, call_next, abort,
  Config, Served,
}
use kaka.Middleware.Http
use kaka.Middleware.Gin
use kaka.Middleware.Echo
use kaka.Middleware.Fiber

pub data Adapter : Type 0 where
  http gin echo fiber : Adapter

abbrev pub nexts : List Action → ℕ
nexts [] = 0
nexts (call_next ∷ acts) = suc (nexts acts)
nexts (a ∷ acts) = nexts acts

-- How often Gin runs what remains of the chain: in `Next()`, and else when the handler returns, unless
-- it was aborted. `aborts` says whether the configured functions call `Abort()`, and `ended` whether the
-- chain has been run or aborted.
abbrev pub gin_nexts : Bool → Bool → List Action → ℕ
gin_nexts aborts true [] = 0
gin_nexts aborts false [] = 1
gin_nexts aborts true (call_next ∷ acts) = gin_nexts aborts true acts
gin_nexts aborts false (call_next ∷ acts) = suc (gin_nexts aborts true acts)
gin_nexts aborts ended (abort ∷ acts) = gin_nexts aborts true acts
gin_nexts aborts ended (call_denied r ∷ acts) = gin_nexts aborts (ended || aborts) acts
gin_nexts aborts ended (call_error e ∷ acts) = gin_nexts aborts (ended || aborts) acts
gin_nexts aborts ended (set_header n v ∷ acts) = gin_nexts aborts ended acts
gin_nexts aborts ended (set_status n ∷ acts) = gin_nexts aborts ended acts
gin_nexts aborts ended (write_json_error t ∷ acts) = gin_nexts aborts ended acts

-- How often the next handler runs.
abbrev pub next_runs : Adapter → Bool → List Action → ℕ
next_runs http aborts = nexts
next_runs gin aborts = gin_nexts aborts false
next_runs echo aborts = nexts
next_runs fiber aborts = nexts

abbrev pub errored : Reply → Bool
errored r = elim r.err [ none ↦ false | some e ↦ true ]

-- The refusals: the status 429 is set, or the configured handler is called.
abbrev pub refusals : List Action → ℕ
refusals [] = 0
refusals (set_status n ∷ acts) = if n == 429 then suc (refusals acts) else refusals acts
refusals (call_denied r ∷ acts) = suc (refusals acts)
refusals (a ∷ acts) = refusals acts

abbrev pub failures : List Action → ℕ
failures [] = 0
failures (call_error e ∷ acts) = suc (failures acts)
failures (a ∷ acts) = failures acts

-- The limiter lets the request through, or fails with no error handler configured.
abbrev pub goes_on : Bool → Reply → Bool
goes_on handler r = granted r || (errored r && not handler)

-- Gin goes on after a configured function that does not abort.
abbrev pub falls_through : Adapter → Bool → Bool → Bool
falls_through http aborts configured = false
falls_through gin aborts configured = configured && not aborts
falls_through echo aborts configured = false
falls_through fiber aborts configured = false

-- Whether a denial or an error, as it came, goes to a configured function.
abbrev pub handled : Bool → Bool → Reply → Bool
handled denied handler r = if errored r then handler else denied

abbrev pub next_due : Adapter → Bool → Bool → Bool → Reply → ℕ
next_due a aborts denied handler r =
    if goes_on handler r || falls_through a aborts (handled denied handler r) then 1 else 0

abbrev pub refusal_due : Reply → ℕ
refusal_due r = if denied_reply r then 1 else 0

abbrev pub failure_due : Bool → Reply → ℕ
failure_due handler r = if errored r && handler then 1 else 0

-- How often the next handler, a refusal and the error handler come in a list of calls.
abbrev pub Verdicts : Adapter → Bool → List Action → ℕ → ℕ → ℕ → Type 0
Verdicts a aborts acts n r f =
    (next_runs a aborts acts ≡ n) × (refusals acts ≡ r) × (failures acts ≡ f)

module _ (W : Type 0) ⦃float : Double W⦄ where
  -- What the calls after a denial amount to.
  abbrev Denies : Adapter → Bool → Bool → List Action → Type 0
  Denies a aborts denied acts =
      Verdicts a aborts acts (if falls_through a aborts denied then 1 else 0) 1 0

  module _ {Req : Type 0} (client : Req → Key) (config : Config Req) (limiter : Limiter) where
    abbrev pub key_of : Req → Key
    key_of = elim config.key_func [ none ↦ client | some f ↦ f ]

    -- One request through an adapter.
    unfoldable pub exchange : Adapter → Req → limiter.State → Served limiter.State
    exchange http req s = Http.handle client W config limiter req s
    exchange gin req s = Gin.handle client W config limiter req s
    exchange echo req s = Echo.handle client W config limiter req s
    exchange fiber req s = Fiber.handle client W config limiter req s
