-- ===== src/Core.antt =====
-- limiter.go and metrics.go: the contract that every limiter and every adapter shares.
-- A request's answer is Go's pair (Result, error); a limiter is a state with one operation, `Allow`;
-- the calls that a limiter makes on its metric sink are a list of events, in the order of the calls.
-- `time.Time` and `time.Duration` are integers of nanoseconds.
use kaka.Prelude.{ℕ, suc, ℤ, pos, Bool, false, not, Option, none, some, List, [], ◌∷◌}
use Prim.Native.String.{String}

-- A Go string: its bytes.
abbrev pub Key : Type 0
Key = List ℕ

pub record Result : Type 0 where
  pub allowed : Bool
  pub remaining : ℤ  -- int64
  pub retry_after : ℤ  -- time.Duration

-- `kaka.Result{}`
abbrev pub zero_result : Result
zero_result = record { allowed = false; remaining = pos 0; retry_after = pos 0 }

-- The errors of the module's packages; `foreign` is that of another implementation of `Limiter`.
pub data Error : Type 0 where
  memory_invalid_key max_keys_exceeded layered_invalid_key redis_blank_key : Error
  redis_unavailable script_error foreign : ℕ → Error

-- `(Result, error)`
pub record Reply : Type 0 where
  pub result : Result
  pub err : Option Error

abbrev pub returns : Result → Reply
returns r = record { result = r; err = none }

abbrev pub fails : Error → Reply
fails e = record { result = zero_result; err = some e }

abbrev pub tier_single : String
tier_single = ""

abbrev pub tier_local : String
tier_local = "local"

abbrev pub tier_remote : String
tier_remote = "remote"

-- A call on a `MetricSink`.
pub data Event : Type 0 where
  on_allowed on_rejected : String → Result → Event
  on_error : String → Error → Event
  set_keys : String → ℤ → Event
  on_evict : String → Event

-- An implementation of `Limiter`, whatever it keeps.
pub record Limiter : Type 1 where
  pub State : Type 0
  pub allow : Key → State → Reply × State

-- A constructor returns a limiter or panics with a message.
pub data Built {ℓ} (A : Type ℓ) : Type ℓ where
  built : A → Built A
  panics : String → Built A

-- The request was let through: no error, and `Allowed` is set.
abbrev pub granted : Reply → Bool
granted r = elim r.err [ none ↦ r.result.allowed | some e ↦ false ]

-- The request was denied by a decision.
abbrev pub denied_reply : Reply → Bool
denied_reply r = elim r.err [ none ↦ not r.result.allowed | some e ↦ false ]

abbrev pub allowed_events : List Event → ℕ
allowed_events [] = 0
allowed_events (on_allowed t r ∷ es) = suc (allowed_events es)
allowed_events (e ∷ es) = allowed_events es

abbrev pub rejected_events : List Event → ℕ
rejected_events [] = 0
rejected_events (on_rejected t r ∷ es) = suc (rejected_events es)
rejected_events (e ∷ es) = rejected_events es
