-- ===== src/Memory/SlidingWindow/Threads/Tests.antt =====
-- memory/sliding_window_log.go with goroutines: runs, and the theorems at one.
use kaka.Prelude.{
  ℕ, zero, suc, ◌<◌, ◌≤◌, ◌≡◌, refl, pos, ◌+ℤ◌, ◌-ℤ◌, Option, none, some, List, [], ◌∷◌, length,
  get_elem?, set, lookup, key_eq, insert, delete, arith,
}
use kaka.Core.{Key, Result}
use kaka.Clock.{Time, time_sub}
use kaka.Memory.Options.{Options, default_options, validate}
use kaka.Memory.Options.Checks.{Accepted, validate-Accepted}
use kaka.Memory.Hash.{shard_for}
use kaka.Memory.Shard.{KeyEntry, cleanup_map}
use kaka.Memory.Shard.Cleaning.{Ranges-self}
use kaka.Memory.Store.{new_store}
use kaka.Memory.Store.Threads.{
  Request, waiting, serving, Turn, blocked, panicked, moved, with_owner, move, System, ask, turn,
  launch,
}
use kaka.Memory.Store.Threads.Safety.{start, after}
use kaka.Memory.Window.{
  WindowState, empty_window, record_and_decide, valid_index, search_from, trim, decide_window,
  append_window_log, grown_cap,
}
use kaka.Memory.SlidingWindow.{SlidingWindow, decide}
use kaka.Memory.SlidingWindow.Threads.{Reached, serving-Fits}

abbrev in_order : Time → List (Key × KeyEntry WindowState) → List (Key × KeyEntry WindowState)
in_order now m = m

abbrev one_key : Options
one_key = record default_options { max_keys = pos 1; shards = pos 1 }

one_key-Accepted : Accepted one_key
unfolding validate
one_key-Accepted = (validate-Accepted one_key).0 refl

-- Three requests in twenty nanoseconds.
abbrev three : SlidingWindow
three = record { limit = 3; window = pos 20; opts = one_key; store = new_store one_key }

three-positive : 0 < three.limit
three-positive = omega arith

abbrev key_a : Key
key_a = 97 ∷ []

abbrev create : Time → WindowState
create now = empty_window

abbrev Machine : Type 0
Machine = System in_order one_key create (decide in_order three)

abbrev call_at : Time → Request
call_at now = record { key = key_a; now = now; home = 0 }

-- `n` turns of goroutine `t`.
abbrev after_turn : Machine → ℕ → Turn WindowState → Option Machine
after_turn s t blocked = none
after_turn s t panicked = none
after_turn s t (moved m p) = some (record { mem = m; threads = set s.threads t p })

abbrev one_turn : ℕ → Machine → Option Machine
one_turn t s = elim (get_elem? s.threads t) [
  | none ↦ none
  | some p ↦ after_turn s t (move in_order one_key create (decide in_order three) t s.mem p)
]

abbrev turns : ℕ → ℕ → Option Machine → Option Machine
turns zero t s = s
turns (suc n) t none = none
turns (suc n) t (some s) = turns n t (one_turn t s)

-- Five goroutines have read the clock.
abbrev called : Machine
called = record {
  mem = (launch in_order one_key create (decide in_order three) 5).mem;
  threads =
      waiting (call_at (pos 20))
      ∷ waiting (call_at (pos 22))
      ∷ waiting (call_at (pos 24))
      ∷ waiting (call_at (pos 41))
      ∷ waiting (call_at (pos 41))
      ∷ [];
}

abbrev log_of : Option Machine → Option (List Time)
log_of none = none
log_of (some s) = elim s.mem.shards [
  | [] ↦ none
  | sh ∷ rest ↦ elim (lookup key_a sh.items) [ none ↦ none | some e ↦ some (e.value.logs) ]
]

abbrev first_three : Option Machine
first_three = turns 5 2 (turns 5 0 (turns 9 1 (some called)))

-- The request at 22 gets the lock before the one at 20.
unordered_test : log_of first_three ≡ some (pos 22 ∷ pos 20 ∷ pos 24 ∷ [])
unfolding move shard_for lookup key_eq time_sub ◌-ℤ◌ ◌+ℤ◌ delete insert cleanup_map
    record_and_decide valid_index search_from trim decide_window append_window_log grown_cap
unordered_test = refl

-- At 41 the entry at 22 is dropped, though it is younger than the window, and both requests are let
-- through: with those at 22 and 24 they are four in the window that ends at 41, and the limit is three.
over_limit_test : log_of (turns 5 4 (turns 5 3 first_three)) ≡ some (pos 24 ∷ pos 41 ∷ pos 41 ∷ [])
unfolding move shard_for lookup key_eq time_sub ◌-ℤ◌ ◌+ℤ◌ delete insert cleanup_map
    record_and_decide valid_index search_from trim decide_window append_window_log grown_cap
over_limit_test = refl

-- A goroutine is about to decide on a new log.
abbrev deciding : Machine
deciding = record {
  mem = record {
    shards =
        record {
          items = (key_a, record { value = empty_window; last_seen = pos 20 }) ∷ [];
          order_items = [];
          order = [];
          next_id = 0;
          last_cleanup = pos 0;
        }
        ∷ [];
    live = pos 1;
    last_sweep = pos 0;
    evicts = 0;
    owner = with_owner 0 (some 0) (λ j. none);
    sweeper = none;
  };
  threads = serving empty_window (call_at (pos 20)) ∷ [];
}

deciding-Reached : Reached in_order (λ now. Ranges-self) three three-positive 1 deciding
unfolding move shard_for lookup key_eq time_sub ◌-ℤ◌ ◌+ℤ◌ delete insert cleanup_map
deciding-Reached =
    after
      (after
        (after
          (after
            (after
              (after (after (after start (ask 0 key_a (pos 20) refl)) (turn 0 refl refl))
                (turn 0 refl refl))
              (turn 0 refl refl))
            (turn 0 refl refl))
          (turn 0 refl refl))
        (turn 0 refl refl))
      (turn 0 refl refl)

serving-Fits_example :
    (length (empty_window.logs) ≤ 3)
    × (u : WindowState) × (d : Result) × (record_and_decide 3 (pos 20) empty_window (pos 20)
        ≡ some (u, d))
    × (length u.logs ≤ 3)
serving-Fits_example =
    serving-Fits in_order (λ now. Ranges-self) three three-positive one_key-Accepted 1 deciding 0
      empty_window (call_at (pos 20)) deciding-Reached refl
