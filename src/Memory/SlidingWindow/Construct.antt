-- ===== src/Memory/SlidingWindow/Construct.antt =====
-- memory/sliding_window_log.go: which arguments `NewSlidingWindow` accepts, and what it builds.
use kaka.Prelude.{
  ◌≡◌, refl, sym, ◌∙◌, ◌⊎◌, inl, inr, ℤ, pos, pos_part, ◌<ℤ◌, leb_ℤ, List, arith, Bool-cases,
  Option-cases,
}
use mathlib.Core.Path.{subst}
use Prim.Native.String.{String}
use kaka.Core.{built, panics}
use kaka.Clock.{Duration}
use kaka.Memory.Options.{Options, Setting, configure, validate}
use kaka.Memory.Options.Checks.{Accepted, validate-Accepted}
use kaka.Memory.Store.{new_store}
use kaka.Memory.SlidingWindow.{SlidingWindow, new_sliding_window}

-- The arguments that the constructor's documentation asks for, and a configuration in order.
abbrev pub Fit : ℤ → Duration → Options → Type 0
Fit limit window o = (pos 0 <ℤ limit) × (pos 0 <ℤ window) × Accepted o

-- A limiter with its arguments, and an empty store.
pub record Fresh (limit : ℤ) (window : Duration) (o : Options) (sw : SlidingWindow) : Type 0 where
  pub limit_kept : pos sw.limit ≡ limit
  pub window_kept : sw.window ≡ window
  pub opts_kept : sw.opts ≡ o
  pub empty : sw.store ≡ new_store o

abbrev pub Constructed : ℤ → Duration → List Setting → Type 0
Constructed limit window opts =
    ((message : String) × (new_sliding_window limit window opts ≡ panics message)
      × (¬ Fit limit window (configure opts)))
    ⊎ ((sw : SlidingWindow) × (new_sliding_window limit window opts ≡ built sw)
        × Fit limit window (configure opts)
        × Fresh limit window (configure opts) sw)

-- The constructor panics exactly if the limit or the window is not positive or the options are not
-- acceptable, and otherwise builds a limiter with these arguments and an empty store.
pub new_sliding_window-Fit :
    (limit : ℤ) (window : Duration) (opts : List Setting) → Constructed limit window opts
unfolding new_sliding_window
new_sliding_window-Fit limit window opts = elim (Bool-cases (leb_ℤ limit (pos 0))) [
  | inl p ↦ inl ("memory: sliding window limit must be > 0", rw p, λ f. ground (arith, f.0))
  | inr p ↦ elim (Bool-cases (leb_ℤ window (pos 0))) [
    | inl q ↦ inl ("memory: sliding window window must be > 0", rw (p, q), λ f. ground (arith, f.1))
    | inr q ↦ elim (Option-cases (validate (configure opts))) [
      | inr (m, v) ↦ inl (m, rw (p, q, v), λ f. cc ((validate-Accepted (configure opts)).1 f.2, v))
      | inl v ↦ inr (
        record {
          limit = pos_part limit;
          window = window;
          opts = configure opts;
          store = new_store (configure opts);
        },
        rw (p, q, v),
        (ground arith, ground arith, (validate-Accepted (configure opts)).0 v),
        record { limit_kept = ground arith; window_kept = refl; opts_kept = refl; empty = refl },
      )
    ]
  ]
]

built_injective : {A : Type 0} {x y : A} → built x ≡ built y → x ≡ y
built_injective e = ground (arith, e)

-- A limiter that was built has its arguments.
pub built-Fit :
    (limit : ℤ) (window : Duration) (opts : List Setting) (sw : SlidingWindow)
    → new_sliding_window limit window opts ≡ built sw
    → Fit limit window (configure opts) × Fresh limit window (configure opts) sw
built-Fit limit window opts sw e = elim (new_sliding_window-Fit limit window opts) [
  | inl (m, p, f) ↦ absurd (ground (arith, e, p))
  | inr (t, p, fit, fresh) ↦
      (fit, subst (Fresh limit window (configure opts)) (built_injective (sym p ∙ e)) fresh)
]
