-- ===== src/Layered/Decision.antt =====
-- layered/limiter.go, one call of `Allow`: which layer answers, and what the sink hears.
use mathlib.Core.Path.{subst}
use kaka.Prelude.{
  ◌≡◌, ◌&&◌, ◌⊎◌, inl, inr, true, false, none, some, arith, if◌then◌else◌, Bool-cases, Option-cases,
}
use kaka.Core.{
  Key, Reply, returns, fails, Error, layered_invalid_key, granted, denied_reply, allowed_events,
  rejected_events,
}
use kaka.Key.Blank.{Spaces}
use kaka.Key.{validate_layered-Spaces}
use kaka.Layered.{Layered, State, remote_allow, after_local, allow}

-- The rules of the type's documentation: who answers a request, and whose state it moves.
pub data Follows (l : Layered) (key : Key) (s : State l) : Reply → State l → Type 0 where
  refused : Spaces key → Follows l key s (fails layered_invalid_key) s
  denied :
      ¬ Spaces key
      → (l.local.allow key s.0).0.err ≡ none
      → (l.local.allow key s.0).0.result.allowed ≡ false
      → Follows l key s (l.local.allow key s.0).0 ((l.local.allow key s.0).1, s.1)
  confirmed :
      ¬ Spaces key
      → ((e : Error) × ((l.local.allow key s.0).0.err ≡ some e))
        ⊎ ((l.local.allow key s.0).0.result.allowed ≡ true)
      → Follows l key s
          (l.remote.allow key s.1).0
          ((l.local.allow key s.0).1, (l.remote.allow key s.1).1)

module _ (l : Layered) (key : Key) (s : State l) where
  remote_allow-reply : (remote_allow l key s).reply ≡ (l.remote.allow key s.1).0
  unfolding remote_allow
  remote_allow-reply = ground arith

  remote_allow-state : (remote_allow l key s).state ≡ (s.0, (l.remote.allow key s.1).1)
  unfolding remote_allow
  remote_allow-state = ground arith

module _ (l : Layered) (key : Key) (s : State l) where
  abbrev local : Reply
  local = (l.local.allow key s.0).0

  abbrev middle : State l
  middle = ((l.local.allow key s.0).1, s.1)

  confirm :
      ¬ Spaces key
      → ((e : Error) × (local.err ≡ some e)) ⊎ (local.result.allowed ≡ true)
      → Follows l key s (remote_allow l key middle).reply (remote_allow l key middle).state
  confirm w h =
      rw (remote_allow-reply l key middle, remote_allow-state l key middle) (confirmed w h)

  denied_here :
      ¬ Spaces key
      → local.err ≡ none
      → local.result.allowed ≡ false
      → Follows l key s (returns local.result) middle
  denied_here w p q =
      let e : local ≡ returns local.result = ground arith in
      subst (λ r. Follows l key s r middle) e (denied w p q)

  after_local-Follows :
      ¬ Spaces key
      → Follows l key s
          (after_local l key local middle).reply
          (after_local l key local middle).state
  unfolding after_local
  after_local-Follows w = elim (Option-cases local.err) [
    | inr (e, p) ↦ rw (p, after_local) (confirm w (inl (e, p)))
    | inl p ↦ elim (Bool-cases local.result.allowed) [
      | inl q ↦ rw (p, q, after_local) (confirm w (inr q))
      | inr q ↦ rw (p, q, after_local) (denied_here w p q)
    ]
  ]

  -- Every call of `Allow` follows one of the rules: a blank key reaches neither layer, a denial of
  -- the local layer is final and leaves the remote layer alone, and any other request, one for
  -- which the local layer failed too, gets the remote layer's reply, whatever it is.
  pub allow-Follows : Follows l key s (allow l key s).reply (allow l key s).state
  unfolding allow
  allow-Follows = elim (validate_layered-Spaces key) [
    | inl (w, e) ↦ rw (e, allow) (refused w)
    | inr (w, e) ↦ rw (e, allow) (after_local-Follows w)
  ]

  -- With a sink every request that is let through is reported as allowed exactly once, every denial
  -- without an error as rejected exactly once, and an error as neither; without one nothing is.
  pub allow-decisions :
      (allowed_events (allow l key s).events
        ≡ (if l.sink && granted (allow l key s).reply then 1 else 0))
      × (rejected_events (allow l key s).events
          ≡ (if l.sink && denied_reply (allow l key s).reply then 1 else 0))
  unfolding allow
  allow-decisions = ground arith
