-- ===== src/Redis/Tests.antt =====
-- redis/: runs over a script that answers from a list, and the theorem at one.
use kaka.Prelude.{◌≡◌, refl, ◌⊎◌, ℤ, pos, negsuc, true, false, List, [], ◌∷◌}
use kaka.Core.{
  Key, Result, fails, redis_blank_key, redis_unavailable, on_allowed, on_error, tier_single,
}
use kaka.Key.{validate_redis}
use kaka.Key.Blank.{Spaces, is_blank}
use kaka.Redis.{
  Options, default_options, error_fail_open, sink_call, callback, int64, array, Response, Attempt,
  success, failure, decision, Runner, parse, allow, of_milliseconds, milliseconds,
}
use kaka.Redis.Verdict.{Means, Reported, script_run, allow-Reported}

-- Answers in turn, and then no connection.
abbrev replay : Key → ℤ → List Response → Attempt Response × List Response
replay key ttl [] = (failure (redis_unavailable 1), [])
replay key ttl (v ∷ vs) = (success v, vs)

abbrev script : Runner
script = record { State = List Response; run = replay }

abbrev open_options : Options
open_options = record default_options { policy = error_fail_open; on_error = true; sink = true }

abbrev user : Key
user = 117 ∷ []

abbrev granted_three : Response
granted_three = array (int64 (pos 1) ∷ int64 (pos 3) ∷ int64 (pos 0) ∷ [])

parse_test :
    parse (array (int64 (pos 0) ∷ int64 (pos 0) ∷ int64 (pos 1500) ∷ []))
    ≡ success (record { allowed = false; remaining = pos 0; retry_after = pos 1500000000 })
unfolding parse
parse_test = refl

-- A product over 2 ^ 63 - 1 wraps around.
wrap_test : of_milliseconds (pos 9223372036855) ≡ negsuc 9223372036854551615
wrap_test = refl

ttl_test : milliseconds default_options.key_ttl ≡ pos 1800000
ttl_test = refl

fail_open_test :
    (allow open_options script user []).notices
    ≡ sink_call (on_error tier_single (redis_unavailable 1))
      ∷ callback (redis_unavailable 1)
      ∷ sink_call (
          on_allowed tier_single
            (record { allowed = true; remaining = pos 0; retry_after = pos 0 }))
      ∷ []
unfolding allow validate_redis is_blank decision
fail_open_test = refl

allow-Reported_example :
    (Spaces user
      × ((allow open_options script user (granted_three ∷ [])).reply ≡ fails redis_blank_key)
      × ((allow open_options script user (granted_three ∷ [])).state ≡ granted_three ∷ []))
    ⊎ ((¬ Spaces user)
        × ((a : Attempt Result) × Means
              (script_run open_options script user (granted_three ∷ [])).0
              a
            × Reported open_options a
                (allow open_options script user (granted_three ∷ [])).reply
                (allow open_options script user (granted_three ∷ [])).notices)
        × ((allow open_options script user (granted_three ∷ [])).state
            ≡ (script_run open_options script user (granted_three ∷ [])).1))
allow-Reported_example = allow-Reported open_options script user (granted_three ∷ [])
