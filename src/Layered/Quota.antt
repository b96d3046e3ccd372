-- ===== src/Layered/Quota.antt =====
-- layered/limiter.go over a run of requests: the remote layer's quota is what bounds the grants.
use kaka.Prelude.{
  ℕ, suc, ◌≡◌, refl, Bool, true, false, none, some, List, [], ◌∷◌, arith, if◌then◌else◌,
}
use kaka.Core.{Key, Reply, Limiter, granted}
use kaka.Key.{validate_layered}
use kaka.Layered.{Layered, State, allow}

-- The replies to a run of requests, and the state left behind.
pub run : (l : Layered) → List Key → State l → List Reply × State l
run l [] s = ([], s)
run l (key ∷ keys) s =
    let (rs, t) = run l keys (allow l key s).state in ((allow l key s).reply ∷ rs, t)

pub run_alone : (r : Limiter) → List Key → r.State → List Reply × r.State
run_alone r [] s = ([], s)
run_alone r (key ∷ keys) s =
    let (rs, t) = run_alone r keys (r.allow key s).1 in ((r.allow key s).0 ∷ rs, t)

pub grants : List Reply → ℕ
grants [] = 0
grants (r ∷ rs) = if granted r then suc (grants rs) else grants rs

-- Whether the local layer sends a request on: it fails, or it allows.
abbrev passes : Reply → Bool
passes r = elim r.err [ some e ↦ true | none ↦ r.result.allowed ]

abbrev forwarded : (l : Layered) → Key → State l → Bool
forwarded l key s = elim (validate_layered key) [
  | some e ↦ false
  | none ↦ passes (l.local.allow key s.0).0
]

-- The requests of a run that reach the remote layer.
pub asked : (l : Layered) → List Key → State l → List Key
asked l [] s = []
asked l (key ∷ keys) s =
    let rest = asked l keys (allow l key s).state in if forwarded l key s then key ∷ rest else rest

module _ (l : Layered) (key : Key) (s : State l) where
  allow-forwarded :
      forwarded l key s ≡ true
      → (granted (allow l key s).reply ≡ granted (l.remote.allow key s.1).0)
        × ((allow l key s).state.1 ≡ (l.remote.allow key s.1).1)
  unfolding allow
  allow-forwarded h = ground arith

  allow-withheld :
      forwarded l key s ≡ false
      → (granted (allow l key s).reply ≡ false) × ((allow l key s).state.1 ≡ s.1)
  unfolding allow
  allow-withheld h = ground arith

-- A run grants exactly as many requests as the remote layer alone grants of those that reach it,
-- and leaves the remote layer as that run alone would: the distributed quota is never exceeded.
pub run-remote :
    (l : Layered) (keys : List Key) (s : State l)
    → (grants (run l keys s).0 ≡ grants (run_alone l.remote (asked l keys s) s.1).0)
      × ((run l keys s).1.1 ≡ (run_alone l.remote (asked l keys s) s.1).1)
unfolding run run_alone grants asked
run-remote l [] s = (refl, refl)
run-remote l (key ∷ keys) s = ground (
  arith,
  allow-forwarded l key s,
  allow-withheld l key s,
  run-remote l keys (allow l key s).state,
)
