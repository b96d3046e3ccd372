-- ===== src/Memory/SlidingWindow/Threads.antt =====
-- memory/sliding_window_log.go: a limiter that goroutines share. `Allow` reads the clock before it takes
-- the lock of the key's shard, so the log may get times out of order.
mod Tests
use kaka.Prelude.{
  ℕ, ◌<◌, ◌≤◌, ◌≡◌, refl, pos_part, Option, none, some, List, length, get_elem?, arith,
}
use kaka.Core.{Key, Result}
use kaka.Clock.{Time, Duration}
use kaka.Memory.Options.{Options}
use kaka.Memory.Options.Checks.{Accepted}
use kaka.Memory.Shard.{KeyEntry}
use kaka.Memory.Shard.Cleaning.{Ranges}
use kaka.Memory.Store.Threads.{Request, serving, System, launch}
use kaka.Memory.Store.Threads.Safety.{Steps}
use kaka.Memory.Store.Threads.Stored.{serving-All}
use kaka.Memory.Window.{WindowState, empty_window, record_and_decide}
use kaka.Memory.Window.Unordered.{Fits, record_and_decide-Fits}
use kaka.Memory.SlidingWindow.{SlidingWindow, decide}

module _ (visit : Time → List (Key × KeyEntry WindowState) → List (Key × KeyEntry WindowState))
    (ranges : (now : Time) → Ranges (visit now)) (sw : SlidingWindow)
    (positive : 0 < sw.limit) where
  abbrev create : Time → WindowState
  create now = empty_window

  -- The goroutines that call `Allow`.
  abbrev pub Callers : Type 0
  Callers = System visit sw.opts create (decide visit sw)

  abbrev pub Reached : ℕ → Callers → Type 0
  Reached k =
      Steps visit sw.opts create (decide visit sw) (launch visit sw.opts create (decide visit sw) k)

  decide-Fits :
      (w : WindowState) (now : Time) → Fits sw.limit w → Fits sw.limit (decide visit sw w now).0
  decide-Fits w now f =
      let (t, r, e, g) = record_and_decide-Fits sw.limit sw.window w now positive f in
      rw (e, decide) g

  -- When goroutines share a limiter whose options a constructor accepts, whatever the order of their
  -- turns and of the times at which they called, a goroutine that is about to decide gets an answer: no
  -- index is out of range, and the log has at most `limit` entries, before the decision and after it.
  pub serving-Fits :
      Accepted sw.opts
      → (k : ℕ) (s : Callers) (t : ℕ) (w : WindowState) (r : Request) → Reached k s
      → get_elem? s.threads t ≡ some (serving w r)
      → (length w.logs ≤ sw.limit)
        × (u : WindowState) × (d : Result) × (record_and_decide sw.limit sw.window w r.now
            ≡ some (u, d))
        × (length u.logs ≤ sw.limit)
  serving-Fits accepted k s t w r steps here =
      let f =
        serving-All visit sw.opts create (decide visit sw) ranges accepted (Fits sw.limit)
          (λ now. record { fits = omega arith; room = omega arith }) decide-Fits k s t w r steps
          here in
      let (u, d, e, g) = record_and_decide-Fits sw.limit sw.window w r.now positive f in
      (omega (arith, f.fits, f.room), u, d, e, omega (arith, g.fits, g.room))
