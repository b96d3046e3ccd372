-- ===== src/Middleware/Tests.antt =====
-- middleware/: runs of the adapters over a limiter that grants a number of requests.
use kaka.Prelude.{ℕ, zero, suc, ◌≡◌, refl, pos, ◌+ℤ◌, true, false, none, some, [], ◌∷◌}
use kaka.Core.{Key, Reply, returns, fails, foreign, Limiter, panics}
use kaka.Double.{seconds}
use kaka.Double.Whole.{Whole, whole_double}
use kaka.Middleware.{
  number, text, set_header, set_status, write_json_error, call_next, Config, serve, headers,
  retry_after_seconds,
}
use kaka.Middleware.Http
use kaka.Middleware.Gin
use kaka.Middleware.Verdict.{http, gin, gin_nexts, exchange}

abbrev spend : Key → ℕ → Reply × ℕ
spend key zero =
    (returns (record { allowed = false; remaining = pos 0; retry_after = pos 2000000000 }), 0)
spend key (suc n) = (returns (record { allowed = true; remaining = pos n; retry_after = pos 0 }), n)

abbrev counter : Limiter
counter = record { State = ℕ; allow = spend }

abbrev broken : Limiter
broken = record { State = ℕ; allow = λ key n. (fails (foreign 7), n) }

abbrev config : Config Key
config = record {
  limiter = some counter;
  key_func = none;
  denied_handler = false;
  error_handler = false;
  disable_headers = false;
}

abbrev client : Key → Key
client addr = addr

denied_test :
    (exchange Whole client config counter http (49 ∷ []) 0).actions
    ≡ set_header "X-RateLimit-Remaining" (number (pos 0))
      ∷ set_header "Retry-After" (number (pos 2))
      ∷ set_header "Content-Type" (text "application/json")
      ∷ set_status 429
      ∷ write_json_error "too many requests"
      ∷ []
unfolding exchange Http.handle serve headers retry_after_seconds Http.ready seconds ◌+ℤ◌
denied_test = refl

fail_open_test : (exchange Whole client config broken http (49 ∷ []) 0).actions ≡ call_next ∷ []
unfolding exchange Http.handle serve Http.ready
fail_open_test = refl

nil_limiter_test :
    Http.middleware client (record config { limiter = none })
    ≡ panics "http middleware: limiter must not be nil"
unfolding Http.middleware
nil_limiter_test = refl

-- Gin's default refusal aborts the chain; a configured one that does not lets it go on.
gin_denied_test :
    gin_nexts false false (exchange Whole client config counter gin (49 ∷ []) 0).actions ≡ 0
unfolding exchange Gin.handle serve headers retry_after_seconds Gin.ready seconds ◌+ℤ◌
gin_denied_test = refl

gin_unaborted_test :
    gin_nexts false false
      (exchange Whole client
        (record config { denied_handler = true })
        counter
        gin
        (49 ∷ [])
        0).actions
    ≡ 1
unfolding exchange Gin.handle serve headers retry_after_seconds Gin.ready seconds ◌+ℤ◌
gin_unaborted_test = refl
