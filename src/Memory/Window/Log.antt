-- ===== src/Memory/Window/Log.antt =====
-- memory/sliding_window_log.go: what one request does to a sorted log, in terms of the entries that
-- are still inside the window.
use kaka.Prelude.{
  ℕ, zero, suc, ◌+◌, ◌≤◌, ◌<◌, ◌≡◌, refl, ap, sym, ◌-ℤ◌, ◌≤ℤ◌, ◌<ℤ◌, List, [], ◌∷◌, ◌++◌, length,
  drop, if◌then◌else◌, arith,
}
use kaka.Clock.{Time, Duration}
use kaka.Memory.Window.{WindowState, after, trim, decide_window, record_and_decide}
use kaka.Memory.Window.Search.{◌!◌, AllAfter, IsSorted, Splits, valid_index-Splits}

-- The entries later than `start`.
unfoldable pub keep_after : Time → List Time → List Time
keep_after start [] = []
keep_after start (t ∷ ts) = if after t start then t ∷ keep_after start ts else keep_after start ts

unfoldable pub count_after : Time → List Time → ℕ
count_after start [] = 0
count_after start (t ∷ ts) =
    if after t start then suc (count_after start ts) else count_after start ts

abbrev pub AllBefore : Time → List Time → Type 0
AllBefore t [] = Unit {0}
AllBefore t (u ∷ us) = (u ≤ℤ t) × AllBefore t us

pub length-keep_after :
    (start : Time) (ts : List Time) → length (keep_after start ts) ≡ count_after start ts
unfolding keep_after count_after
length-keep_after start [] = refl
length-keep_after start (t ∷ ts) = ground (arith, length-keep_after start ts)

pub count_after-le : (start : Time) (ts : List Time) → count_after start ts ≤ length ts
unfolding count_after
count_after-le start [] = omega arith
count_after-le start (t ∷ ts) = ground (arith, count_after-le start ts)

-- Entries that were dropped by an earlier start do not count for a later one.
pub count_after-keep_after :
    (a b : Time) (ts : List Time) → a ≤ℤ b → count_after b (keep_after a ts) ≡ count_after b ts
unfolding keep_after count_after
count_after-keep_after a b [] h = refl
count_after-keep_after a b (t ∷ ts) h = ground (arith, count_after-keep_after a b ts h)

pub count_after-append :
    (start : Time) (xs ys : List Time)
    → count_after start (xs ++ ys) ≡ count_after start xs + count_after start ys
unfolding count_after
count_after-append start [] ys = omega arith
count_after-append start (x ∷ xs) ys = ground (arith, count_after-append start xs ys)

AllAfter-keep_after :
    (u start : Time) (ts : List Time) → AllAfter u ts → AllAfter u (keep_after start ts)
unfolding keep_after
AllAfter-keep_after u start [] a = tt
AllAfter-keep_after u start (t ∷ ts) a = ground (arith, AllAfter-keep_after u start ts a.1)

pub keep_after-IsSorted :
    (start : Time) (ts : List Time) → IsSorted ts → IsSorted (keep_after start ts)
unfolding keep_after
keep_after-IsSorted start [] s = tt
keep_after-IsSorted start (t ∷ ts) s =
    ground (arith, keep_after-IsSorted start ts s.1, AllAfter-keep_after t start ts s.0)

pub keep_after-AllBefore :
    (u start : Time) (ts : List Time) → AllBefore u ts → AllBefore u (keep_after start ts)
unfolding keep_after
keep_after-AllBefore u start [] a = tt
keep_after-AllBefore u start (t ∷ ts) a = ground (arith, keep_after-AllBefore u start ts a.1)

pub AllBefore-mono : (a b : Time) (ts : List Time) → a ≤ℤ b → AllBefore a ts → AllBefore b ts
AllBefore-mono a b [] h p = tt
AllBefore-mono a b (t ∷ ts) h p = (omega arith, AllBefore-mono a b ts h p.1)

pub AllBefore-append : (u : Time) (ts : List Time) → AllBefore u ts → AllBefore u (ts ++ u ∷ [])
AllBefore-append u [] p = (omega arith, tt)
AllBefore-append u (t ∷ ts) p = (p.0, AllBefore-append u ts p.1)

AllAfter-append : (t u : Time) (ts : List Time) → t ≤ℤ u → AllAfter t ts → AllAfter t (ts ++ u ∷ [])
AllAfter-append t u [] h p = (h, tt)
AllAfter-append t u (x ∷ ts) h p = (p.0, AllAfter-append t u ts h p.1)

pub IsSorted-append :
    (u : Time) (ts : List Time) → IsSorted ts → AllBefore u ts → IsSorted (ts ++ u ∷ [])
IsSorted-append u [] s p = (tt, tt)
IsSorted-append u (t ∷ ts) s p = (AllAfter-append t u ts p.0 s.0, IsSorted-append u ts s.1 p.1)

keep_after_all :
    (start : Time) (ts : List Time)
    → ((i : ℕ) → i < length ts → start <ℤ ts ! i)
    → keep_after start ts ≡ ts
unfolding keep_after
keep_after_all start [] h = refl
keep_after_all start (t ∷ ts) h =
    ground (arith, h 0, keep_after_all start ts (λ i p. h (suc i) (omega arith)))

drop-keep_after :
    (start : Time) (ts : List Time) (v : ℕ) → Splits ts start v → drop v ts ≡ keep_after start ts
unfolding keep_after
drop-keep_after start ts zero s = sym (keep_after_all start ts (λ i p. s.young i (omega arith) p))
drop-keep_after start [] (suc v) s = refl
drop-keep_after start (t ∷ ts) (suc v) s = ground (
  arith,
  s.old 0,
  drop-keep_after start ts v (record {
    inside = omega (arith, s.inside);
    old = λ i p. s.old (suc i) (omega arith);
    young = λ i p q. s.young (suc i) (omega arith) (omega arith);
  }),
)

pub trim-keep_after :
    (s : WindowState) (start : Time) (v : ℕ)
    → Splits s.logs start v
    → trim s v ≡ record s { logs = keep_after start s.logs }
unfolding trim
trim-keep_after s start zero p = ground (arith, drop-keep_after start s.logs zero p)
trim-keep_after s start (suc v) p = ground (arith, drop-keep_after start s.logs (suc v) p)

-- The request sees the entries inside the window, and nothing else of the log.
pub record_and_decide-decide_window :
    (limit : ℕ) (window : Duration) (s : WindowState) (now : Time)
    → IsSorted s.logs
    → record_and_decide limit window s now
      ≡ decide_window limit window (record s { logs = keep_after (now -ℤ window) s.logs }) now
unfolding record_and_decide
record_and_decide-decide_window limit window s now sorted =
    let (v, found, split) = valid_index-Splits s.logs (now -ℤ window) sorted in
    rw (found, record_and_decide)
      (ap (λ t. decide_window limit window t now) (trim-keep_after s (now -ℤ window) v split))
