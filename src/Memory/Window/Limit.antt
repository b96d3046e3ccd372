-- ===== src/Memory/Window/Limit.antt =====
-- memory/sliding_window_log.go over a run of requests on one key: the promise of the limiter.
use kaka.Prelude.{
  ℕ, suc, ◌≤◌, ◌<◌, ◌≡◌, refl, ◌-ℤ◌, ◌≤ℤ◌, leb_ℤ, -ℤ_parts, int_laws, Option, none, some, ◌&&◌,
  List, [], ◌∷◌, if◌then◌else◌, arith,
}
use kaka.Core.{Result}
use kaka.Clock.{Time, Duration}
use kaka.Memory.Window.{WindowState, empty_window, after, record_and_decide}
use kaka.Memory.Window.Log.{
  keep_after, count_after, AllBefore, AllBefore-mono, count_after-keep_after, count_after-append,
}
use kaka.Memory.Window.Validity.{
  IsValid, Answers, record_and_decide-Answers, record_and_decide-IsValid, Answers-of,
}

-- Requests at the given times, and the times that were let through, the newest first.
pub serve : ℕ → Duration → List Time → WindowState → List Time → Option (WindowState × List Time)
serve limit window [] s granted = some (s, granted)
serve limit window (now ∷ nows) s granted = elim (record_and_decide limit window s now) [
  | none ↦ none
  | some (t, r) ↦ serve limit window nows t (if r.allowed then now ∷ granted else granted)
]

-- How many of the times lie in the window that ends at `t`: later than `t - window`, up to `t`.
pub count_in : Duration → Time → List Time → ℕ
count_in window t [] = 0
count_in window t (u ∷ us) =
    if after u (t -ℤ window) && leb_ℤ u t then suc (count_in window t us) else count_in window t us

abbrev pub Ascending : Time → List Time → Type 0
Ascending t [] = Unit {0}
Ascending t (u ∷ us) = (t ≤ℤ u) × Ascending u us

count_in-le :
    (window : Duration) (t start : Time) (us : List Time)
    → start ≤ℤ t -ℤ window
    → count_in window t us ≤ count_after start us
unfolding count_in count_after
count_in-le window t start [] h = omega arith
count_in-le window t start (u ∷ us) h = ground (arith, count_in-le window t start us h)

module _ (limit : ℕ) (window : Duration) (positive : 0 < limit) where
  -- The log of a key whose last request came at `last`, and the times that were let through.
  pub record Tracks (last : Time) (s : WindowState) (granted : List Time) : Type 0 where
    pub valid : IsValid limit last s
    pub past : AllBefore last granted
    pub counted :
        (start : Time)
        → last -ℤ window ≤ℤ start
        → count_after start s.logs ≡ count_after start granted
    pub limited : (t : Time) → count_in window t granted ≤ limit

  module _ {last : Time} {s : WindowState} {granted : List Time} (k : Tracks last s granted)
      (now : Time) (forward : last ≤ℤ now) where
    later_start : last -ℤ window ≤ℤ now -ℤ window
    later_start = omega int_laws

    abbrev pub pushed : Result → List Time
    pushed r = if r.allowed then now ∷ granted else granted

    module _ {t : WindowState} {r : Result} (a : Answers limit window s now t r) where
      counted_log :
          (start : Time)
          → now -ℤ window ≤ℤ start
          → count_after start t.logs ≡ count_after start (pushed r)
      unfolding count_after
      counted_log start h = ground (
        arith,
        a.log,
        later_start,
        k.counted start,
        count_after-keep_after (now -ℤ window) start s.logs h,
        count_after-append start (keep_after (now -ℤ window) s.logs) (now ∷ []),
      )

      limited_log : (u : Time) → count_in window u (pushed r) ≤ limit
      unfolding count_in
      limited_log u = ground (
        arith,
        a.verdict,
        later_start,
        k.limited u,
        k.counted (now -ℤ window),
        count_in-le window u (now -ℤ window) granted,
        -ℤ_parts now window,
        -ℤ_parts u window,
      )

      past_log : AllBefore now (pushed r)
      past_log = ground (arith, AllBefore-mono last now granted forward k.past)

    pub Tracks-Answers :
        {t : WindowState} {r : Result}
        → Answers limit window s now t r
        → IsValid limit now t
        → Tracks now t (pushed r)
    Tracks-Answers a v = record {
      valid = v;
      past = past_log a;
      counted = counted_log a;
      limited = limited_log a;
    }

    Tracks-step :
        {t : WindowState} {r : Result}
        → record_and_decide limit window s now ≡ some (t, r)
        → Tracks now t (pushed r)
    Tracks-step {t} {r} e =
        Tracks-Answers (Answers-of limit window s now positive k.valid.sorted e)
          (record_and_decide-IsValid limit window s now positive forward k.valid e)

  serve-Tracks :
      (nows : List Time) {last : Time} {s : WindowState} {granted : List Time}
      → Tracks last s granted
      → Ascending last nows
      → (end : Time) × (t : WindowState) × (h : List Time) × (serve limit window nows s granted
          ≡ some (t, h))
        × Tracks end t h
  unfolding serve
  serve-Tracks [] {last} {s} {granted} k asc = (last, s, granted, refl, k)
  serve-Tracks (now ∷ nows) {s} k asc =
      let (t, r, e, a) = record_and_decide-Answers limit window s now positive k.valid.sorted in
      let rest = serve-Tracks nows (Tracks-step k now asc.0 e) asc.1 in
      (rest.0, rest.1, rest.2, rw (e, serve) rest.3, rest.4)

  pub start-Tracks : (first : Time) → Tracks first empty_window []
  unfolding count_after count_in
  start-Tracks first = record {
    valid = omega arith;
    past = tt;
    counted = λ start h. refl;
    limited = λ t. omega arith;
  }

-- From an empty log, and while the clock does not go back, every request is answered, and no window
-- of the configured length, wherever it ends, holds more than `limit` requests that were let
-- through.
pub serve-count_in :
    (limit : ℕ) (window : Duration) (first : Time) (nows : List Time)
    → 0 < limit
    → Ascending first nows
    → (s : WindowState) × (granted : List Time) × (serve limit window nows empty_window []
        ≡ some (s, granted))
      × ((t : Time) → count_in window t granted ≤ limit)
serve-count_in limit window first nows positive asc =
    let r =
      serve-Tracks limit window positive nows (start-Tracks limit window positive first) asc in
    (r.1, r.2, r.3, r.4.limited)
