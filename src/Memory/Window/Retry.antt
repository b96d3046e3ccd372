-- ===== src/Memory/Window/Retry.antt =====
-- memory/sliding_window_log.go: `RetryAfter` of a denial is exact.
use kaka.Prelude.{
  ℕ, suc, ◌≤◌, ◌<◌, ◌≡◌, refl, ap, ◌∙◌, ℤ, pos, ◌+ℤ◌, ◌-ℤ◌, ◌≤ℤ◌, ◌<ℤ◌, leb_ℤ, +ℤ_parts, -ℤ_parts,
  int_laws, some, false, List, [], ◌∷◌, length, ltb, arith,
}
use mathlib.Core.Path.{subst}
use kaka.Core.{Result}
use kaka.Clock.{Time, Duration, max_duration, time_sub_exact}
use kaka.Memory.Window.{WindowState, record_and_decide}
use kaka.Memory.Window.Search.{IsSorted, AllAfter}
use kaka.Memory.Window.Log.{keep_after, count_after, count_after-le, AllBefore}
use kaka.Memory.Window.Validity.{IsValid, Answers-of, record_and_decide-IsValid, Denial-of}

-- All entries are later than the start if the oldest is.
count_after_sorted :
    (start t : Time) (ts : List Time)
    → AllAfter t ts
    → start <ℤ t
    → count_after start ts ≡ length ts
unfolding count_after
count_after_sorted start t [] a h = refl
count_after_sorted start t (u ∷ us) a h = ground (arith, count_after_sorted start t us a.1 h)

pub keep_after-head :
    (start x : Time) (xs ts : List Time) → keep_after start ts ≡ x ∷ xs → start <ℤ x
unfolding keep_after
keep_after-head start x xs [] e = cc
keep_after-head start x xs (t ∷ ts) e = ground (arith, keep_after-head start x xs ts)

head-le : (u x : Time) (xs ts : List Time) → AllBefore u ts → ts ≡ x ∷ xs → x ≤ℤ u
head-le u x xs [] p e = cc
head-le u x xs (t ∷ ts) p e = ground arith

-- A full log has room again exactly when its oldest entry falls out of the window.
room_at :
    (limit : ℕ) (start oldest : Time) (rest : List Time)
    → AllAfter oldest rest
    → limit ≤ suc (length rest)
    → suc (length rest) ≤ limit
    → ltb (count_after start (oldest ∷ rest)) limit ≡ leb_ℤ oldest start
unfolding count_after
room_at limit start oldest rest a h k =
    ground (arith, count_after_sorted start oldest rest a, count_after-le start rest)

same_test :
    (oldest now d window wait : ℤ)
    → wait ≡ oldest +ℤ window -ℤ now
    → leb_ℤ oldest (now +ℤ d -ℤ window) ≡ leb_ℤ wait d
same_test oldest now d window wait e = rw e (
    ground (
      arith,
      +ℤ_parts now d,
      -ℤ_parts (now +ℤ d) window,
      +ℤ_parts oldest window,
      -ℤ_parts (oldest +ℤ window) now,
    ))

module _ (limit : ℕ) (window : Duration) (s : WindowState) (now : Time) {last : Time}
    {t : WindowState} {r : Result} (positive : 0 < limit) (valid : IsValid limit last s)
    (forward : last ≤ℤ now) (window_le : window ≤ℤ max_duration) (window_pos : pos 0 <ℤ window)
    (outcome : record_and_decide limit window s now ≡ some (t, r))
    (denied : r.allowed ≡ false) where
  -- A denied request may come again after `RetryAfter`, and not a nanosecond earlier: if no other
  -- request on the key comes between, the next one, `d` later, is let through exactly when `d` is
  -- at least `RetryAfter`, which is positive and at most the window. (For a valid log, a window
  -- that fits a `time.Duration` and a clock that has not gone back.)
  pub retry_after_exact :
      (d : Duration) (u : WindowState) (q : Result)
      → record_and_decide limit window t (now +ℤ d) ≡ some (u, q)
      → (q.allowed ≡ leb_ℤ r.retry_after d) × (pos 0 <ℤ r.retry_after) × (r.retry_after ≤ℤ window)
  retry_after_exact d u q e =
      let f = Denial-of limit window s now positive valid.sorted outcome denied in
      let valid' = record_and_decide-IsValid limit window s now positive forward valid outcome in
      let a = Answers-of limit window t (now +ℤ d) positive valid'.sorted e in
      let young = keep_after-head (now -ℤ window) f.oldest f.rest s.logs f.young in
      let past = head-le now f.oldest f.rest t.logs valid'.past f.trimmed in
      let exact : r.retry_after ≡ f.oldest +ℤ window -ℤ now =
        f.wait ∙ time_sub_exact (f.oldest +ℤ window) now (omega int_laws) (omega int_laws) in
      (
        a.verdict
            ∙ ap (λ l. ltb (count_after (now +ℤ d -ℤ window) l) limit) f.trimmed
            ∙ room_at limit (now +ℤ d -ℤ window) f.oldest f.rest
                (subst IsSorted f.trimmed valid'.sorted).0
                (omega (arith, f.full, ap length f.trimmed))
                (omega (arith, valid'.within, ap length f.trimmed))
            ∙ same_test f.oldest now d window r.retry_after exact,
        rw exact (omega int_laws),
        rw exact (omega int_laws),
      )
