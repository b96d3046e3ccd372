-- ===== src/Redis.antt =====
-- redis/: the base that the three Redis limiters share (options.go, limiter.go), and the `Allow` that
-- they share but for the arguments of their scripts (token_bucket.go, leaky_bucket.go,
-- sliding_window_log.go). Running the script is a parameter, a `Runner`. Of the registered callback
-- and the sink only whether they are nil is kept.
pub mod Verdict
pub mod Script
pub mod Limiters
mod Tests
use kaka.Prelude.{
  ℕ, suc, ◌+◌, ◌-◌, ◌*◌, ◌/◌, ◌%◌, ◌^◌, ℤ, pos, negsuc, pos_part, neg_part, eqb_ℤ, ltb, Bool, true,
  false, Option, none, some, List, [], ◌∷◌, ◌++◌, if◌then◌else◌,
}
use kaka.Core.{
  Key, Result, Reply, returns, fails, Error, script_error, Event, on_allowed, on_rejected, on_error,
  tier_single,
}
use kaka.Clock.{Duration, minute}
use kaka.Key.{validate_redis}

abbrev pub error_fail_closed : ℤ
error_fail_closed = pos 0

abbrev pub error_fail_open : ℤ
error_fail_open = pos 1

pub record Options : Type 0 where
  pub key_prefix : Key
  pub key_ttl : Duration
  pub policy : ℤ
  pub on_error : Bool
  pub sink : Bool

-- "kaka:", 30 minutes, fail closed.
abbrev pub default_options : Options
default_options = record {
  key_prefix = 107 ∷ 97 ∷ 107 ∷ 97 ∷ 58 ∷ [];
  key_ttl = pos (30 * minute);
  policy = error_fail_closed;
  on_error = false;
  sink = false;
}

abbrev pub Setting : Type 0
Setting = Options → Options

unfoldable pub with_key_prefix : Key → Setting
with_key_prefix prefix o = record o { key_prefix = prefix }

unfoldable pub with_key_ttl : Duration → Setting
with_key_ttl ttl o = record o { key_ttl = ttl }

unfoldable pub with_error_policy : ℤ → Setting
with_error_policy policy o = record o { policy = policy }

unfoldable pub with_on_error : Bool → Setting
with_on_error fn o = record o { on_error = fn }

unfoldable pub with_metric_sink : Bool → Setting
with_metric_sink sink o = record o { sink = sink }

unfoldable pub apply_settings : List Setting → Options → Options
apply_settings [] o = o
apply_settings (opt ∷ opts) o = apply_settings opts (opt o)

unfoldable pub new_limiter : List Setting → Options
unfolding apply_settings
new_limiter opts = apply_settings opts default_options

-- A call of the registered callback, or one on the sink.
pub data Notice : Type 0 where
  callback : Error → Notice
  sink_call : Event → Notice

unfoldable pub key_for : Options → Key → Key
key_for o key = o.key_prefix ++ key

unfoldable pub call_on_error : Options → Error → List Notice
call_on_error o e = if o.on_error then callback e ∷ [] else []

abbrev pub fallback_result : Options → Result
fallback_result o = record {
  allowed = eqb_ℤ o.policy error_fail_open;
  remaining = pos 0;
  retry_after = pos 0;
}

unfoldable pub emit : Options → Result → List Notice
emit o r =
    if o.sink
    then sink_call (if r.allowed then on_allowed tier_single r else on_rejected tier_single r) ∷ []
    else []

unfoldable pub emit_error : Options → Error → List Notice
emit_error o e = if o.sink then sink_call (on_error tier_single e) ∷ [] else []

-- `ttl.Milliseconds()`, towards zero.
abbrev pub milliseconds : Duration → ℤ
milliseconds (pos n) = pos (n / 1000000)
milliseconds (negsuc n) = let q = suc n / 1000000 in if ltb 0 q then negsuc (q - 1) else pos 0

-- An int64 of the integer's residue.
abbrev pub wrap_int64 : ℤ → ℤ
wrap_int64 z =
    let u = (pos_part z + (2 ^ 64 - neg_part z % 2 ^ 64)) % 2 ^ 64 in
    if ltb u (2 ^ 63) then pos u else negsuc (2 ^ 64 - 1 - u)

-- `time.Duration(ms) * time.Millisecond`, in int64.
abbrev pub of_milliseconds : ℤ → Duration
of_milliseconds (pos n) = wrap_int64 (pos (n * 1000000))
of_milliseconds (negsuc n) = wrap_int64 (negsuc (suc n * 1000000 - 1))

-- What a script returned, as far as the code tells it apart.
pub data Item : Type 0 where
  int64 : ℤ → Item
  other_item : Item

pub data Response : Type 0 where
  array : List Item → Response
  other_response : Response

-- A value, or an error.
pub data Attempt {ℓ} (A : Type ℓ) : Type ℓ where
  success : A → Attempt A
  failure : Error → Attempt A

-- The two messages of a malformed response.
unfoldable pub parse : Response → Attempt Result
parse other_response = failure (script_error 0)
parse (array (a ∷ b ∷ c ∷ [])) = elim a [
  | other_item ↦ failure (script_error 1)
  | int64 allowed ↦ elim b [
    | other_item ↦ failure (script_error 1)
    | int64 remaining ↦ elim c [
      | other_item ↦ failure (script_error 1)
      | int64 retry_ms ↦ success (record {
        allowed = eqb_ℤ allowed (pos 1);
        remaining = remaining;
        retry_after = of_milliseconds retry_ms;
      })
    ]
  ]
]
parse (array items) = failure (script_error 0)

unfoldable pub decision : Attempt Response → Attempt Result
decision (failure e) = failure e
decision (success v) = parse v

-- `script.Run` for a key and a time to live, its limiter's other arguments included.
pub record Runner : Type 1 where
  pub State : Type 0
  pub run : Key → ℤ → State → Attempt Response × State

pub record Outcome (S : Type 0) : Type 0 where
  pub reply : Reply
  pub state : S
  pub notices : List Notice

module _ (o : Options) where
  -- `emitError`, `fallback` with its report, and `emit`.
  unfoldable pub degrade : Error → Result × List Notice
  unfolding emit emit_error call_on_error
  degrade e =
      (fallback_result o, emit_error o e ++ (call_on_error o e ++ emit o (fallback_result o)))

  unfoldable pub settle : Attempt Result → Result × List Notice
  unfolding degrade emit
  settle (success r) = (r, emit o r)
  settle (failure e) = degrade e

  unfoldable pub allow : (r : Runner) → Key → r.State → Outcome r.State
  unfolding settle key_for
  allow r key s = elim (validate_redis key) [
    | some e ↦ record { reply = fails e; state = s; notices = emit_error o e }
    | none ↦
        let (res, t) = r.run (key_for o key) (milliseconds o.key_ttl) s in
        let decided = settle (decision res) in
        record { reply = returns decided.0; state = t; notices = decided.1 }
  ]
