-- ===== src/Redis/Script.antt =====
-- redis/script.go: running a script by its SHA, which is cached, and loaded again when the server has
-- lost it. The server is a parameter; an empty SHA is one that is not cached.
pub mod Reload
pub mod Serves
mod Tests
use kaka.Prelude.{ℤ, Bool, Option, none, some, List, [], ◌∷◌, if◌then◌else◌}
use kaka.Core.{Key, Error, redis_unavailable, script_error}
use kaka.Redis.{Attempt, success, failure, Response}

-- `client.ScriptLoad` and `client.EvalSha`, for the script's body and its other arguments, and
-- `strings.Contains(err.Error(), "NOSCRIPT")`.
pub record Server : Type 1 where
  pub State : Type 0
  pub script_load : State → Attempt Key × State
  pub eval_sha : Key → Key → ℤ → State → Attempt Response × State
  pub is_no_script : Error → Bool

module _ (srv : Server) where
  -- The cached SHA, and the server.
  abbrev pub Cached : Type 0
  Cached = Key × srv.State

  unfoldable pub load : Cached → Option Error × Cached
  load (sha, s) =
      let (res, t) = srv.script_load s in
      elim res [
        | failure e ↦ (some (redis_unavailable 0), (sha, t))
        | success new ↦ (none, (new, t))
      ]

  unfoldable pub eval : Key → ℤ → Cached → Attempt Response × Cached
  eval key ttl (sha, s) = let (res, t) = srv.eval_sha sha key ttl s in (res, (sha, t))

  unfoldable pub wrap_error : Attempt Response → Attempt Response
  wrap_error (success v) = success v
  wrap_error (failure e) = failure (script_error 2)

  -- From the first EVALSHA on.
  unfoldable pub run_loaded : Key → ℤ → Cached → Attempt Response × Cached
  unfolding load eval wrap_error
  run_loaded key ttl c =
      let (res, d) = eval key ttl c in
      elim res [
        | success v ↦ (success v, d)
        | failure e ↦
            if srv.is_no_script e
            then (let (err, f) = load d in
                elim err [
                  | some err ↦ (failure err, f)
                  | none ↦ (wrap_error (eval key ttl f).0, (eval key ttl f).1)
                ])
            else (failure (script_error 2), d)
      ]

  unfoldable pub run : Key → ℤ → Cached → Attempt Response × Cached
  unfolding load run_loaded
  run key ttl ([], s) =
      let (err, f) = load ([], s) in
      elim err [ some err ↦ (failure err, f) | none ↦ run_loaded key ttl f ]
  run key ttl (b ∷ sha, s) = run_loaded key ttl (b ∷ sha, s)
