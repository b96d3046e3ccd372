-- ===== src/Memory/SlidingWindow/Sound.antt =====
-- memory/sliding_window_log.go: the limiter's invariant, which holds of a limiter that was just built.
use kaka.Prelude.{
  ℕ, ◌<◌, ◌≡◌, refl, sym, ap, ◌∙◌, inl, inr, ℤ, ◌≤ℤ◌, Bool, none, some, Bool-cases, arith,
}
use mathlib.Core.Path.{subst}
use kaka.Core.{Key, Reply}
use kaka.Clock.{Time, Duration}
use kaka.Memory.Options.{Options}
use kaka.Memory.Window.{WindowState}
use kaka.Memory.Window.Log.{AllBefore-mono}
use kaka.Memory.Window.Validity.{IsValid}
use kaka.Memory.Store.{Store, new_store, drain_evictions}
use kaka.Memory.Store.Promise.{peek, Valid}
use kaka.Memory.Store.Promise.Fresh.{new_store-Valid}
use kaka.Memory.SlidingWindow.Construct.{Fit, Fresh}
use kaka.Memory.SlidingWindow.{SlidingWindow, report}

module _ {A : Type 0} (o : Options) (sink : Bool) (r : Reply) (s : Store A) where
  -- Reporting to the sink leaves the states alone.
  pub peek-report : (k : Key) → peek o (report sink r s).0 k ≡ peek o s k
  unfolding report drain_evictions
  peek-report k = elim (Bool-cases sink) [
    | inl p ↦ rw (p, report) refl
    | inr p ↦ rw (p, report) refl
  ]

  pub live-report : (report sink r s).0.live ≡ s.live
  unfolding report drain_evictions
  live-report = ground arith

  pub Valid-report : Valid o s → Valid o (report sink r s).0
  unfolding report drain_evictions
  Valid-report v = elim (Bool-cases sink) [
    | inl p ↦
        rw (p, report)
          (record {
            sound = v.sound;
            mode = v.mode;
            live = v.live;
            power = v.power;
            bounded = v.bounded;
          })
    | inr p ↦ rw (p, report) v
  ]

-- The limiter whose last request came at `last`: the store is valid, and so is the log of each key.
pub record Sound (sw : SlidingWindow) (last : Time) : Type 0 where
  pub positive : 0 < sw.limit
  pub store : Valid sw.opts sw.store
  pub windows :
      (k : Key) (w : WindowState) → peek sw.opts sw.store k ≡ some w → IsValid sw.limit last w

-- A limiter that was just built has no key.
pub Fresh-peek :
    (limit : ℤ) (window : Duration) (o : Options) (sw : SlidingWindow)
    → Fit limit window o
    → Fresh limit window o sw
    → (k : Key) → peek sw.opts sw.store k ≡ none
Fresh-peek limit window o sw fit fresh k =
    ap (λ s. peek sw.opts s k) fresh.empty
    ∙ ap (λ p. peek p (new_store o) k) fresh.opts_kept
    ∙ (new_store-Valid WindowState o fit.2).1 k

-- A limiter that was just built is sound.
pub Sound-Fresh :
    (limit : ℤ) (window : Duration) (o : Options) (sw : SlidingWindow) (first : Time)
    → Fit limit window o
    → Fresh limit window o sw
    → Sound sw first
Sound-Fresh limit window o sw first fit fresh =
    let valid = (new_store-Valid WindowState o fit.2).0 in
    record {
      positive = ground (arith, fit.0, fresh.limit_kept);
      store =
          subst (Valid sw.opts) (sym fresh.empty)
            (subst (λ p. Valid {A = WindowState} p (new_store o)) (sym fresh.opts_kept) valid);
      windows = λ k w here. absurd (ground (arith, Fresh-peek limit window o sw fit fresh k, here));
    }

pub IsValid-mono :
    {limit : ℕ} {a b : Time} {w : WindowState} → a ≤ℤ b → IsValid limit a w → IsValid limit b w
IsValid-mono {a} {b} {w} h v = record {
  sorted = v.sorted;
  past = AllBefore-mono a b w.logs h v.past;
  within = v.within;
  fits = v.fits;
  room = v.room;
}
