-- ===== src/Contract/Window/Tests.antt =====
-- internal/contracttest/contracttest.go: the tests on a limiter, and on one that lets everything through.
use kaka.Prelude.{ℕ, suc, ◌≡◌, refl, pos, ◌+◌, ◌-◌, true, Option, some, List, [], ◌∷◌}
use kaka.Core.{Key, Reply, returns}
use kaka.Clock.{Time}
use kaka.Memory.Options.{Setting, with_eviction_policy, evict_lru, default_options}
use kaka.Memory.Shard.{KeyEntry}
use kaka.Memory.Window.{WindowState}
use kaka.Memory.Store.{Store, new_store}
use kaka.Memory.SlidingWindow.{SlidingWindow}
use kaka.Contract.{Schedule, run_result_boundary_test}

abbrev in_order : Time → List (Key × KeyEntry WindowState) → List (Key × KeyEntry WindowState)
in_order now m = m

abbrev settings : List Setting
settings = with_eviction_policy evict_lru ∷ []

abbrev one_request : SlidingWindow
one_request = record {
  limit = 1;
  window = pos 10;
  opts = record default_options { eviction = evict_lru };
  store = new_store (record default_options { eviction = evict_lru });
}

abbrev schedule : Schedule Time
schedule = record {
  first = pos 0;
  second = pos 1;
  same_order = λ i. i;
  same_read = λ i. pos (20 + i);
  multiple_order = λ i. 31 - i;
  multiple_read = λ i. pos (30 + i);
  empty_read = pos 40;
  blank_read = pos 41;
}

abbrev let_through : Time → Key → ℕ → Option (Reply × ℕ)
let_through now key calls =
    some (returns (record { allowed = true; remaining = pos 0; retry_after = pos 0 }), suc calls)

-- A limiter without a limit fails.
let_through_test :
    run_result_boundary_test let_through schedule 0
    ≡ some (some "expected second request to be denied", 2)
unfolding run_result_boundary_test
let_through_test = refl
