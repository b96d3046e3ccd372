-- ===== src/Layered/Tests.antt =====
-- layered/limiter.go: runs, and the theorems at a limiter of two counters.
use kaka.Prelude.{ℕ, zero, suc, ◌≡◌, refl, pos, true, false, [], ◌∷◌, if◌then◌else◌, ◌&&◌}
use kaka.Core.{
  Key, Reply, returns, fails, foreign, Limiter, on_allowed, on_rejected, on_error, granted,
  denied_reply, allowed_events, rejected_events, tier_local, tier_remote,
}
use kaka.Key.{validate_layered}
use kaka.Key.Blank.{is_blank}
use kaka.Layered.{Layered, allow}
use kaka.Layered.Decision.{Follows, allow-Follows, allow-decisions}
use kaka.Layered.Quota.{run, run_alone, grants, asked, run-remote}

-- A limiter that grants as many requests as it has left.
abbrev spend : Key → ℕ → Reply × ℕ
spend key zero = (returns (record { allowed = false; remaining = pos 0; retry_after = pos 1 }), 0)
spend key (suc n) = (returns (record { allowed = true; remaining = pos n; retry_after = pos 0 }), n)

abbrev counter : Limiter
counter = record { State = ℕ; allow = spend }

abbrev broken : Limiter
broken = record { State = ℕ; allow = λ key n. (fails (foreign 7), n) }

abbrev demo : Layered
demo = record { local = counter; remote = counter; sink = true }

abbrev degraded : Layered
degraded = record { local = broken; remote = counter; sink = true }

abbrev user : Key
user = 117 ∷ []

denied_here_test :
    (allow demo user (0, 3)).events
    ≡ on_rejected tier_local (record { allowed = false; remaining = pos 0; retry_after = pos 1 })
      ∷ []
unfolding allow validate_layered is_blank
denied_here_test = refl

degraded_test :
    (allow degraded user (5, 1)).events
    ≡ on_error tier_local (foreign 7)
      ∷ on_allowed tier_remote (record { allowed = true; remaining = pos 0; retry_after = pos 0 })
      ∷ []
unfolding allow validate_layered is_blank
degraded_test = refl

allow-Follows_example :
    Follows demo user (1, 3) (allow demo user (1, 3)).reply (allow demo user (1, 3)).state
allow-Follows_example = allow-Follows demo user (1, 3)

allow-decisions_example :
    (allowed_events (allow degraded user (5, 1)).events
      ≡ (if degraded.sink && granted (allow degraded user (5, 1)).reply then 1 else 0))
    × (rejected_events (allow degraded user (5, 1)).events
        ≡ (if degraded.sink && denied_reply (allow degraded user (5, 1)).reply then 1 else 0))
allow-decisions_example = allow-decisions degraded user (5, 1)

run-remote_example :
    (grants (run demo (user ∷ user ∷ user ∷ []) (2, 1)).0
      ≡ grants (run_alone counter (asked demo (user ∷ user ∷ user ∷ []) (2, 1)) 1).0)
    × ((run demo (user ∷ user ∷ user ∷ []) (2, 1)).1.1
        ≡ (run_alone counter (asked demo (user ∷ user ∷ user ∷ []) (2, 1)) 1).1)
run-remote_example = run-remote demo (user ∷ user ∷ user ∷ []) (2, 1)
