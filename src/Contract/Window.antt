-- ===== src/Contract/Window.antt =====
-- internal/contracttest/contracttest.go on the limiter of memory/sliding_window_log.go.
mod Tests
use Prim.Native.String.{String}
use kaka.Prelude.{
  zero, suc, ◌+◌, ◌-◌, ◌≡◌, sym, ◌⊎◌, ℤ, true, Option, none, some, List, if◌then◌else◌,
}
use kaka.Core.{Key, Result, returns}
use kaka.Clock.{Time}
use kaka.Memory.Shard.{KeyEntry}
use kaka.Memory.Shard.Cleaning.{Ranges}
use kaka.Memory.Window.{WindowState, empty_window}
use kaka.Memory.Window.Validity.{Answers}
use kaka.Memory.Store.{Store, is_lru}
use kaka.Memory.Store.Promise.{peek}
use kaka.Memory.SlidingWindow.{SlidingWindow}
use kaka.Memory.SlidingWindow.Sound.{Sound}
use kaka.Contract.Calls.{call, calls}

module _ (visit : Time → List (Key × KeyEntry WindowState) → List (Key × KeyEntry WindowState))
    (ranges : (now : Time) → Ranges (visit now)) (sw : SlidingWindow)
    (lru : is_lru sw.opts ≡ true) where
  -- The answer of a call that comes after all others in time.
  record Ordered (now : Time) (key : Key) (s : Store WindowState) : Type 0 where
    left : Store WindowState
    result : Result
    log : WindowState
    log' : WindowState
    outcome : call visit sw now key s ≡ some (returns result, left)
    sound : Sound (record sw { store = left }) now
    origin : (peek sw.opts s key ≡ some log) ⊎ ((peek sw.opts s key ≡ none) × (log ≡ empty_window))
    kept : peek sw.opts left key ≡ some log'
    answers : Answers sw.limit sw.window log now log' result
