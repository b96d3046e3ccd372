-- ===== src/Memory/SlidingWindow.antt =====
-- memory/sliding_window_log.go: the limiter around the log, its constructor and `Allow`.
-- The time that `clock.Now()` gives is an argument. `none` is a run-time panic.
pub mod Report
pub mod Construct
pub mod Sound
pub mod Serves
pub mod Quota
pub mod Threads
mod Tests
use Prim.Native.String.{String}
use kaka.Prelude.{
  ℕ, ℤ, pos, pos_part, leb_ℤ, Bool, Option, none, some, List, [], ◌∷◌, if◌then◌else◌,
}
use kaka.Core.{
  Key, Result, Reply, returns, fails, max_keys_exceeded, Event, on_allowed, on_rejected, on_error,
  set_keys, tier_single, Built, built, panics,
}
use kaka.Clock.{Time, Duration}
use kaka.Key.{validate_memory}
use kaka.Memory.Options.{Options, Setting, configure, validate}
use kaka.Memory.Shard.{KeyEntry}
use kaka.Memory.Window.{WindowState, empty_window, record_and_decide}
use kaka.Memory.Store.{Store, new_store, with_state, drain_evictions, ran, max_keys_reached}

pub record SlidingWindow : Type 0 where
  pub limit : ℕ
  pub window : Duration
  pub opts : Options
  pub store : Store WindowState

unfoldable pub new_sliding_window : ℤ → Duration → List Setting → Built SlidingWindow
new_sliding_window limit window opts =
    if leb_ℤ limit (pos 0)
    then panics "memory: sliding window limit must be > 0"
    else if leb_ℤ window (pos 0)
    then panics "memory: sliding window window must be > 0"
    else (let o = configure opts in
        elim (validate o) [
          | some message ↦ panics message
          | none ↦
              built
                (record { limit = pos_part limit; window = window; opts = o; store = new_store o })
        ])

-- What the sink hears after the store was asked: the decision, the number of keys, the evictions.
unfoldable pub report : {A : Type 0} → Bool → Reply → Store A → Store A × List Event
unfolding drain_evictions
report sink r s =
    if sink
    then (let (t, evicted) = drain_evictions sink s in
        let decision : Event = elim r.err [
          | some e ↦ on_error tier_single e
          | none ↦
              if r.result.allowed
              then on_allowed tier_single r.result
              else on_rejected tier_single r.result
        ] in
        (t, decision ∷ set_keys tier_single s.live ∷ evicted))
    else (s, [])

module _
    (visit : Time → List (Key × KeyEntry WindowState) → List (Key × KeyEntry WindowState)) where
  -- The function that the limiter hands to the store.
  abbrev pub decide : SlidingWindow → WindowState → Time → WindowState × Option Result
  decide sw s now = elim (record_and_decide sw.limit sw.window s now) [
    | none ↦ (s, none)
    | some (t, r) ↦ (t, some r)
  ]

  abbrev pub answered :
      SlidingWindow → Reply → Store WindowState → SlidingWindow × Reply × List Event
  answered sw r s =
      let (t, events) = report sw.opts.sink r s in (record sw { store = t }, r, events)

  unfoldable pub allow : SlidingWindow → Key → Time → Option (SlidingWindow × Reply × List Event)
  unfolding report
  allow sw key now = elim (validate_memory key) [
    | some e ↦ some (sw, fails e, if sw.opts.sink then on_error tier_single e ∷ [] else [])
    | none ↦ elim (with_state visit sw.opts (λ t. empty_window) now (decide sw) key sw.store) [
      | none ↦ none
      | some (s, max_keys_reached) ↦ some (answered sw (fails max_keys_exceeded) s)
      | some (s, ran none) ↦ none
      | some (s, ran (some r)) ↦ some (answered sw (returns r) s)
    ]
  ]
