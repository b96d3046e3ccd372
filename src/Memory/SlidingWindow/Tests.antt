-- ===== src/Memory/SlidingWindow/Tests.antt =====
-- memory/sliding_window_log.go: runs of the limiter, and the theorems at concrete arguments.
use kaka.Prelude.{
  arith, ◌≡◌, refl, ℕ, ◌≤◌, pos, ◌-ℤ◌, ◌+ℤ◌, true, false, Option, none, some, List, [], ◌∷◌, lookup,
  insert, key_eq,
}
use kaka.Core.{
  Key, Result, Reply, returns, fails, Event, on_allowed, on_rejected, on_error, set_keys,
  memory_invalid_key, max_keys_exceeded, tier_single, built,
}
use kaka.Clock.{Time, time_sub}
use kaka.Key.{validate_memory}
use kaka.Key.Blank.{is_blank}
use kaka.Memory.Options.{Options, default_options, with_max_keys}
use kaka.Memory.Shard.{KeyEntry, cleanup_off}
use kaka.Memory.Window.{
  WindowState, record_and_decide, valid_index, search_from, trim, decide_window, append_window_log,
}
use kaka.Memory.Store.{Store, new_store, with_state}
use kaka.Memory.SlidingWindow.{SlidingWindow, new_sliding_window, allow}
use kaka.Memory.Options.{validate, configure}
use kaka.Memory.Window.Limit.{count_in}
use kaka.Memory.SlidingWindow.Quota.{run, times, run-count_in}
use kaka.Memory.Options.Checks.{validate-Accepted}
use kaka.Memory.Shard.Cleaning.{Ranges-self}
use kaka.Memory.SlidingWindow.Sound.{Sound, Sound-Fresh}
use kaka.Memory.SlidingWindow.Serves.{Serves, allow-Serves}
use kaka.Memory.SlidingWindow.Construct.{Constructed, new_sliding_window-Fit}

abbrev in_order : Time → List (Key × KeyEntry WindowState) → List (Key × KeyEntry WindowState)
in_order now m = m

abbrev one_key : Options
one_key = record default_options { max_keys = pos 1; shards = pos 1; sink = true }

-- One request in ten nanoseconds, for one key.
abbrev start : SlidingWindow
start = record { limit = 1; window = pos 10; opts = one_key; store = new_store one_key }

abbrev key_a : Key
key_a = 97 ∷ []

abbrev busy : Store ℕ
busy = record { shards = []; live = pos 3; last_sweep = pos 0; evicts = 2 }

-- The replies and events of requests, each with its key and its time.
abbrev serve_all : SlidingWindow → List (Key × Time) → List (Option (Reply × List Event))
serve_all sw [] = []
serve_all sw ((key, now) ∷ rest) = elim (allow in_order sw key now) [
  | none ↦ none ∷ []
  | some (t, r, es) ↦ some (r, es) ∷ serve_all t rest
]

abbrev yes : Result
yes = record { allowed = true; remaining = pos 0; retry_after = pos 0 }

abbrev no : Result
no = record { allowed = false; remaining = pos 0; retry_after = pos 6 }

allow_test :
    serve_all start
      ((key_a, pos 5) ∷ (key_a, pos 9) ∷ (98 ∷ [], pos 9) ∷ ([], pos 9) ∷ (key_a, pos 15) ∷ [])
    ≡ some (returns yes, on_allowed tier_single yes ∷ set_keys tier_single (pos 1) ∷ [])
      ∷ some (returns no, on_rejected tier_single no ∷ set_keys tier_single (pos 1) ∷ [])
      ∷ some (
        fails max_keys_exceeded,
        on_error tier_single max_keys_exceeded ∷ set_keys tier_single (pos 1) ∷ [],
      )
      ∷ some (fails memory_invalid_key, on_error tier_single memory_invalid_key ∷ [])
      ∷ some (returns yes, on_allowed tier_single yes ∷ set_keys tier_single (pos 1) ∷ [])
      ∷ []
unfolding allow validate_memory is_blank with_state lookup key_eq time_sub ◌-ℤ◌ ◌+ℤ◌
    record_and_decide valid_index search_from trim decide_window append_window_log insert
allow_test = refl

new_sliding_window-Fit_example : Constructed (pos 5) (pos 10) (with_max_keys (pos 3) ∷ [])
new_sliding_window-Fit_example =
    new_sliding_window-Fit (pos 5) (pos 10) (with_max_keys (pos 3) ∷ [])

start-Accepted : validate one_key ≡ none
unfolding validate
start-Accepted = refl

start-Sound : Sound start (pos 0)
start-Sound =
    Sound-Fresh (pos 1) (pos 10) one_key start (pos 0)
      (omega arith, omega arith, (validate-Accepted one_key).0 start-Accepted)
      (record { limit_kept = refl; window_kept = refl; opts_kept = refl; empty = refl })

allow-Serves_example :
    Serves in_order
      (λ now. Ranges-self)
      start
      key_a
      (pos 5)
      (pos 0)
      (omega arith)
      start-Sound
      (allow in_order start key_a (pos 5))
allow-Serves_example =
    allow-Serves in_order (λ now. Ranges-self) start key_a (pos 5) (pos 0) (omega arith) start-Sound

-- As built by `NewSlidingWindow(1, 10, WithMaxKeys(3))`.
abbrev three_keys : SlidingWindow
three_keys = record {
  limit = 1;
  window = pos 10;
  opts = record default_options { max_keys = pos 3 };
  store = new_store (record default_options { max_keys = pos 3 });
}

three_keys-built :
    new_sliding_window (pos 1) (pos 10) (with_max_keys (pos 3) ∷ []) ≡ built three_keys
unfolding new_sliding_window configure validate with_max_keys
three_keys-built = refl

no_clean_up : cleanup_off three_keys.opts ≡ true
unfolding cleanup_off
no_clean_up = refl

abbrev requests : List (Key × Time)
requests = (key_a, pos 5) ∷ (98 ∷ [], pos 6) ∷ (key_a, pos 9) ∷ (key_a, pos 15) ∷ []

run-count_in_example :
    (t : SlidingWindow) × (log : List (Key × Time)) × (run in_order three_keys requests []
      ≡ some (t, log))
    × ((k : Key) (end : Time) → count_in three_keys.window end (times k log) ≤ three_keys.limit)
run-count_in_example =
    run-count_in in_order (λ now. Ranges-self) (pos 1) (pos 10) (with_max_keys (pos 3) ∷ [])
      three_keys (pos 5) requests three_keys-built no_clean_up refl (omega arith)
