-- ===== src/Middleware/Gin.antt =====
-- middleware/gin/middleware.go. `client_ip` is the context's `ClientIP()`.
-- `AbortWithStatusJSON` is `Abort`, then the status and the body.
-- The deprecated field `Headers` is read nowhere and left out.
use kaka.Prelude.{none, some, [], ◌∷◌, if◌then◌else◌}
use kaka.Double.{Double}
use kaka.Core.{Key, Limiter, Built, built, panics}
use kaka.Middleware.{
  set_status, abort, write_json_error, call_denied, Config, Ready, Served, serve, too_many_requests,
  denied_message,
}

module _ {Req : Type 0} (client_ip : Req → Key) where
  unfoldable pub ready : Config Req → Limiter → Ready Req
  ready config limiter = record {
    limiter = limiter;
    key_func = elim config.key_func [ none ↦ client_ip | some f ↦ f ];
    denied = λ result.
        if config.denied_handler
        then call_denied none ∷ []
        else abort ∷ set_status too_many_requests ∷ write_json_error denied_message ∷ [];
    error_handler = config.error_handler;
    disable_headers = config.disable_headers;
  }

  unfoldable pub new_limiter_middleware : Config Req → Built (Ready Req)
  unfolding ready
  new_limiter_middleware config = elim config.limiter [
    | none ↦ panics "gin middleware: limiter must not be nil"
    | some limiter ↦ built (ready config limiter)
  ]

  -- The handler that the closure returns.
  unfoldable pub handle :
      (W : Type 0)
      → ⦃float : Double W⦄ → Config Req
      → (l : Limiter) → Req
      → l.State
      → Served l.State
  unfolding ready
  handle W config limiter req s = serve W (ready config limiter) req s
