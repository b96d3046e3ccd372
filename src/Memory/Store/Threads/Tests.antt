-- ===== src/Memory/Store/Threads/Tests.antt =====
-- memory/sharded_store.go with goroutines: runs of two goroutines on a store of counters, and the theorems
-- at one.
use kaka.Prelude.{
  ℕ, suc, ◌≡◌, refl, ◌⊎◌, pos, ◌+ℤ◌, ◌-ℤ◌, some, none, List, [], ◌∷◌, length, replicate, pos_part,
  ◌≤ℤ◌, ◌≤◌, ◌+◌, lookup, key_eq, insert, delete,
}
use kaka.Core.{Key}
use kaka.Clock.{Time, time_sub}
use kaka.Memory.Options.{Options, default_options, validate}
use kaka.Memory.Options.Checks.{Accepted, validate-Accepted}
use kaka.Memory.Hash.{shard_for}
use kaka.Memory.Shard.{Shard, KeyEntry, cleanup_map}
use kaka.Memory.Shard.Cleaning.{Ranges-self}
use kaka.Memory.Store.Thins.{total, at}
use kaka.Memory.Store.Access.{value_at}
use kaka.Memory.Store.Threads.{
  Request, Pc, idle, waiting, serving, leaving, Shared, blocked, panicked, moved, with_owner, move,
  System, ask, turn, launch,
}
use kaka.Memory.Store.Threads.Owing.{owing}
use kaka.Memory.Store.Threads.Inv.{seen}
use kaka.Memory.Store.Threads.Safety.{Steps, start, after, live_exact, serves_alone, never_panics}
use kaka.Memory.Store.Threads.Progress.{Goes, no_deadlock}
use kaka.Memory.Store.Threads.Atomic.{Atomic, calls, turn-Atomic}

abbrev reject_two : Options
reject_two = record default_options {
  max_keys = pos 2;
  key_ttl = pos 10;
  cleanup_interval = pos 1;
  shards = pos 1;
}

reject_two-Accepted : Accepted reject_two
unfolding validate
reject_two-Accepted = (validate-Accepted reject_two).0 refl

abbrev in_order : Time → List (Key × KeyEntry ℕ) → List (Key × KeyEntry ℕ)
in_order now m = m

abbrev create : Time → ℕ
create now = 0

abbrev count : ℕ → Time → ℕ × ℕ
count v now = (suc v, v)

abbrev Machine : Type 0
Machine = System in_order reject_two create count

abbrev key_a : Key
key_a = 97 ∷ []

abbrev key_b : Key
key_b = 98 ∷ []

abbrev call_a : Request
call_a = record { key = key_a; now = pos 5; home = 0 }

abbrev call_b : Request
call_b = record { key = key_b; now = pos 6; home = 0 }

abbrev made : Shard ℕ
made = record {
  items = (key_a, record { value = 0; last_seen = pos 5 }) ∷ [];
  order_items = [];
  order = [];
  next_id = 0;
  last_cleanup = pos 5;
}

-- Goroutine 0 is about to call `fn` for key a, and goroutine 1 waits for the shard.
abbrev one_serves : Machine
one_serves = record {
  mem = record {
    shards = made ∷ [];
    live = pos 1;
    last_sweep = pos 0;
    evicts = 0;
    owner = with_owner 0 (some 0) (λ j. none);
    sweeper = none;
  };
  threads = serving 0 call_a ∷ waiting call_b ∷ [];
}

one_serves-Steps :
    Steps in_order reject_two create count (launch in_order reject_two create count 2) one_serves
unfolding move shard_for lookup key_eq time_sub ◌-ℤ◌ ◌+ℤ◌ delete insert cleanup_map
one_serves-Steps =
    after
      (after
        (after
          (after
            (after
              (after
                (after (after (after start (ask 0 key_a (pos 5) refl)) (turn 0 refl refl))
                  (turn 0 refl refl))
                (ask 1 key_b (pos 6) refl))
              (turn 0 refl refl))
            (turn 0 refl refl))
          (turn 0 refl refl))
        (turn 0 refl refl))
      (turn 0 refl refl)

-- The turn in which goroutine 0 calls `fn`, which writes the shard.
abbrev counted : Shared ℕ
counted = record (one_serves.mem) {
  shards = record made { items = (key_a, record { value = 1; last_seen = pos 5 }) ∷ [] } ∷ [];
}

serve_test :
    move in_order reject_two create count 0 one_serves.mem (serving 0 call_a)
    ≡ moved counted (leaving call_a)
unfolding move lookup key_eq insert
serve_test = refl

-- Goroutine 1 cannot go on until the lock is free.
wait_test : move in_order reject_two create count 1 one_serves.mem (waiting call_b) ≡ blocked
unfolding move
wait_test = refl

idle-waiting : ¬ (◌≡◌ {A = Pc ℕ} (waiting call_b) idle)
idle-waiting e = cc

live_exact_example :
    (one_serves.mem.live ≡ pos (total one_serves.mem.shards + owing one_serves.threads))
    × ((reject_two.max_keys ≡ pos 0)
        ⊎ ((one_serves.mem.live ≤ℤ reject_two.max_keys)
            × (total one_serves.mem.shards ≤ pos_part reject_two.max_keys)))
    × (one_serves.threads ≡ replicate (length one_serves.threads) idle
        → one_serves.mem.live ≡ pos (total one_serves.mem.shards))
live_exact_example =
    live_exact in_order reject_two create count (λ now. Ranges-self) reject_two-Accepted 2
      one_serves one_serves-Steps

never_panics_example :
    ¬ (move in_order reject_two create count 0 one_serves.mem (serving 0 call_a) ≡ panicked)
never_panics_example =
    never_panics in_order reject_two create count (λ now. Ranges-self) reject_two-Accepted 2
      one_serves 0 (serving 0 call_a) one_serves-Steps refl

serves_alone_example :
    ◌≡◌ {A = ℕ} 0 0
    × (value_at reject_two key_a
          (at one_serves.mem.shards (shard_for (length one_serves.mem.shards) key_a))
        ≡ some 0)
serves_alone_example =
    serves_alone in_order reject_two create count (λ now. Ranges-self) reject_two-Accepted 2
      one_serves 0 0 0 0 call_a call_a one_serves-Steps refl refl refl

no_deadlock_example : (u : ℕ) × Goes in_order reject_two create count one_serves u
no_deadlock_example =
    no_deadlock in_order reject_two create count (λ now. Ranges-self) reject_two-Accepted 2
      one_serves one_serves-Steps 1 (waiting call_b) refl (λ e. idle-waiting e)

turn-Atomic_example :
    Atomic in_order reject_two create count
      (seen reject_two (length one_serves.mem.shards) one_serves.mem.shards)
      (seen reject_two (length counted.shards) counted.shards)
      (calls in_order reject_two create count (serving 0 call_a))
turn-Atomic_example =
    turn-Atomic in_order reject_two create count (λ now. Ranges-self) reject_two-Accepted 2
      one_serves 0 (serving 0 call_a) (leaving call_a) counted one_serves-Steps refl serve_test
