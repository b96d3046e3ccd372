-- ===== src/Memory/Limiter.antt =====
-- memory/token_bucket.go and memory/leaky_bucket.go: what the two `Allow` methods share, for the state
-- and the decision of either. The time that `clock.Now()` gives is an argument; `none` is a run-time
-- panic.
pub mod Serves
use kaka.Prelude.{Option, none, some, List, [], ◌∷◌, if◌then◌else◌}
use kaka.Core.{Key, Result, Reply, returns, fails, max_keys_exceeded, Event, on_error, tier_single}
use kaka.Clock.{Time}
use kaka.Key.{validate_memory}
use kaka.Memory.Options.{Options}
use kaka.Memory.Shard.{KeyEntry}
use kaka.Memory.Store.{Store, with_state, ran, max_keys_reached}
use kaka.Memory.SlidingWindow.{report}

module _ {A : Type 0} (visit : Time → List (Key × KeyEntry A) → List (Key × KeyEntry A))
    (o : Options) (create : Time → A) (decide : A → Time → A × Result) where
  abbrev pub answered : Reply → Store A → Store A × Reply × List Event
  answered r s = let (t, events) = report o.sink r s in (t, r, events)

  unfoldable pub allow : Store A → Key → Time → Option (Store A × Reply × List Event)
  unfolding report
  allow s key now = elim (validate_memory key) [
    | some e ↦ some (s, fails e, if o.sink then on_error tier_single e ∷ [] else [])
    | none ↦ elim (with_state visit o create now decide key s) [
      | none ↦ none
      | some (t, max_keys_reached) ↦ some (answered (fails max_keys_exceeded) t)
      | some (t, ran r) ↦ some (answered (returns r) t)
    ]
  ]
