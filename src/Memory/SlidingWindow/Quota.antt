-- ===== src/Memory/SlidingWindow/Quota.antt =====
-- memory/sliding_window_log.go, `Allow` over a run of requests on any keys, on a store that removes no
-- key: the promise of the limiter, for each key.
use kaka.Prelude.{
  ℕ, ◌≤◌, ◌<◌, ◌≡◌, refl, sym, ◌∙◌, inl, inr, ℤ, ◌≤ℤ◌, true, false, Option, none, some, List, [],
  ◌∷◌, key_eq, key_eq_iff, key_eq_self, if◌then◌else◌, Bool-cases, Option-cases, arith, int_laws,
}
use mathlib.Core.Path.{subst}
use kaka.Core.{Key, Result, Reply, returns, fails, granted, built, Event, max_keys_exceeded}
use kaka.Clock.{Time, Duration}
use kaka.Key.{validate_memory}
use kaka.Memory.Options.{Setting, configure}
use kaka.Memory.Shard.{KeyEntry, cleanup_off}
use kaka.Memory.Shard.Cleaning.{Ranges}
use kaka.Memory.Window.{WindowState, empty_window}
use kaka.Memory.Window.Log.{AllBefore-mono}
use kaka.Memory.Window.Limit.{count_in, Tracks, Tracks-Answers, start-Tracks}
use kaka.Memory.Store.{Store, Verdict, is_lru, with_state, ran, max_keys_reached}
use kaka.Memory.Store.Promise.{peek}
use kaka.Memory.Store.Promise.Stays.{with_state-peek}
use kaka.Memory.SlidingWindow.Construct.{built-Fit}
use kaka.Memory.SlidingWindow.{SlidingWindow, new_sliding_window, decide, allow}
use kaka.Memory.SlidingWindow.Sound.{Sound, Sound-Fresh, Fresh-peek, peek-report, IsValid-mono}
use kaka.Memory.SlidingWindow.Serves.{Ruled, blank, full, decided, allow-Serves}

-- The times of the requests on a key.
pub times : Key → List (Key × Time) → List Time
times k [] = []
times k ((j, t) ∷ rest) = if key_eq j k then t ∷ times k rest else times k rest

-- Requests in turn, and those that were let through, the newest first.
pub run :
    (Time → List (Key × KeyEntry WindowState) → List (Key × KeyEntry WindowState))
    → SlidingWindow
    → List (Key × Time)
    → List (Key × Time)
    → Option (SlidingWindow × List (Key × Time))
run visit sw [] log = some (sw, log)
run visit sw ((key, now) ∷ rest) log = elim (allow visit sw key now) [
  | none ↦ none
  | some (t, r, events) ↦ run visit t rest (if granted r then (key, now) ∷ log else log)
]

-- The clock does not go back.
abbrev pub InOrder : Time → List (Key × Time) → Type 0
InOrder last [] = Unit {0}
InOrder last ((key, now) ∷ rest) = (last ≤ℤ now) × InOrder now rest

-- The log of a key, which is empty if the store has none.
abbrev log_of : Option WindowState → WindowState
log_of none = empty_window
log_of (some w) = w

module _ {limit : ℕ} {window : Duration} {positive : 0 < limit} where
  Tracks-mono :
      {a b : Time} {w : WindowState} {l : List Time}
      → a ≤ℤ b
      → Tracks limit window positive a w l
      → Tracks limit window positive b w l
  Tracks-mono {a} {b} {w} {l} h k = record {
    valid = IsValid-mono h k.valid;
    past = AllBefore-mono a b l h k.past;
    counted = λ start later. k.counted start (omega (int_laws, h, later));
    limited = k.limited;
  }

module _ (visit : Time → List (Key × KeyEntry WindowState) → List (Key × KeyEntry WindowState))
    (ranges : (now : Time) → Ranges (visit now)) (sw : SlidingWindow)
    (off : cleanup_off sw.opts ≡ true) (reject : is_lru sw.opts ≡ false) where
  module _ (key : Key) (now : Time) (j : Key) (other : key_eq key j ≡ false) where
    abbrev Same : Option (SlidingWindow × Reply × List Event) → Type 0
    Same none = Unit {0}
    Same (some (t, r, events)) = peek sw.opts t.store j ≡ peek sw.opts sw.store j

    stored-Same :
        (s : Store WindowState) (v : Verdict (Option Result))
        → with_state visit sw.opts (λ t. empty_window) now (decide visit sw) key sw.store
          ≡ some (s, v)
        → validate_memory key ≡ none
        → peek sw.opts s j ≡ peek sw.opts sw.store j
        → Same (allow visit sw key now)
    unfolding allow
    stored-Same s max_keys_reached e good same =
        rw (good, allow, e) (peek-report sw.opts sw.opts.sink (fails max_keys_exceeded) s j ∙ same)
    stored-Same s (ran none) e good same = rw (good, allow, e) tt
    stored-Same s (ran (some r)) e good same =
        rw (good, allow, e) (peek-report sw.opts sw.opts.sink (returns r) s j ∙ same)

    -- A request for one key leaves the logs of the others alone.
    allow-Same : Same (allow visit sw key now)
    unfolding allow
    allow-Same = elim (Option-cases (validate_memory key)) [
      | inr (err, bad) ↦ rw (bad, allow) refl
      | inl good ↦
          let stored =
            with_state visit sw.opts (λ t. empty_window) now (decide visit sw) key sw.store in
          elim (Option-cases stored) [
            | inl stuck ↦ rw (good, allow, stuck) tt
            | inr ((s, v), e) ↦
                let same =
                  with_state-peek visit sw.opts (λ t. empty_window) now key off reject
                    (decide visit sw) sw.store s v j e other in
                stored-Same s v e good same
          ]
    ]

module _ (visit : Time → List (Key × KeyEntry WindowState) → List (Key × KeyEntry WindowState))
    (ranges : (now : Time) → Ranges (visit now)) (sw : SlidingWindow) (positive : 0 < sw.limit)
    (off : cleanup_off sw.opts ≡ true) (reject : is_lru sw.opts ≡ false) where
  abbrev with_store : Store WindowState → SlidingWindow
  with_store s = record sw { store = s }

  -- A key whose last request came at `last`.
  abbrev KeyTracks : Time → Option WindowState → List Time → Type 0
  KeyTracks last w l = Tracks sw.limit sw.window positive last (log_of w) l

  record AllTrack (s : Store WindowState) (last : Time) (log : List (Key × Time)) : Type 0 where
    sound : Sound (with_store s) last
    each : (k : Key) → KeyTracks last (peek sw.opts s k) (times k log)

  abbrev logged : Key → Time → Reply → List (Key × Time) → List (Key × Time)
  logged key now r log = if granted r then (key, now) ∷ log else log

  module _ (s : Store WindowState) (log : List (Key × Time)) (key : Key) (now last : Time)
      (forward : last ≤ℤ now) (k : AllTrack s last log) where
    abbrev pushed : Result → List Time
    pushed r = if r.allowed then now ∷ times key log else times key log

    times_own : (r : Result) → times key (logged key now (returns r) log) ≡ pushed r
    unfolding times
    times_own r = ground (arith, key_eq_self key)

    times_other :
        (r : Reply) (j : Key) → key_eq key j ≡ false → times j (logged key now r log) ≡ times j log
    unfolding times
    times_other r j other = ground (arith, other)

    own-Tracks :
        (t : Store WindowState) (r : Reply)
        → Sound (with_store t) now
        → Ruled (with_store s) key now t r
        → KeyTracks now (peek sw.opts t key) (times key (logged key now r log))
    unfolding times
    own-Tracks t r sound (blank spaces) = Tracks-mono forward (k.each key)
    own-Tracks t r sound (full open_key mode new still_new live) =
        subst (λ w. KeyTracks now w (times key log)) (new ∙ sym still_new)
          (Tracks-mono forward (k.each key))
    own-Tracks t r sound (decided w w' result open_key origin after answers) =
        let before : log_of (peek sw.opts s key) ≡ w = ground (arith, origin) in
        let old =
          subst (λ v. Tracks sw.limit sw.window positive last v (times key log)) before
            (k.each key) in
        let new =
          Tracks-Answers sw.limit sw.window positive old now forward answers
            (sound.windows key w' after) in
        subst (λ l. KeyTracks now (peek sw.opts t key) l) (sym (times_own result))
          (subst (λ v. KeyTracks now v (pushed result)) (sym after) new)

    each-Tracks :
        (t : Store WindowState) (r : Reply) (events : List Event)
        → allow visit (with_store s) key now ≡ some (with_store t, r, events)
        → Sound (with_store t) now
        → Ruled (with_store s) key now t r
        → (j : Key) → KeyTracks now (peek sw.opts t j) (times j (logged key now r log))
    each-Tracks t r events e sound ruled j = elim (Bool-cases (key_eq key j)) [
      | inl own ↦
          subst (λ i. KeyTracks now (peek sw.opts t i) (times i (logged key now r log)))
            ((key_eq_iff key j).0 own) (own-Tracks t r sound ruled)
      | inr other ↦
          let same : peek sw.opts t j ≡ peek sw.opts s j =
            subst (Same visit ranges (with_store s) off reject key now j other) e
              (allow-Same visit ranges (with_store s) off reject key now j other) in
          subst (λ l. KeyTracks now (peek sw.opts t j) l) (sym (times_other r j other))
            (subst (λ w. KeyTracks now w (times j log)) (sym same) (Tracks-mono forward (k.each j)))
    ]

  run-AllTrack :
      (reqs : List (Key × Time)) (s : Store WindowState) (log : List (Key × Time)) (last : Time)
      → AllTrack s last log
      → InOrder last reqs
      → (end : Time) × (t : Store WindowState) × (l : List (Key × Time)) × (run visit
            (with_store s)
            reqs
            log
          ≡ some (with_store t, l))
        × AllTrack t end l
  unfolding run
  run-AllTrack [] s log last k asc = (last, s, log, refl, k)
  run-AllTrack ((key, now) ∷ rest) s log last k asc =
      let (t, r, events, e, sound, ruled) =
        allow-Serves visit ranges (with_store s) key now last asc.0 k.sound in
      let next : AllTrack t now (logged key now r log) = record {
        sound = sound;
        each = each-Tracks s log key now last asc.0 k t r events e sound ruled;
      } in
      let (end, u, l, done, all) = run-AllTrack rest t (logged key now r log) now next asc.1 in
      (end, u, l, rw (e, run) done, all)

-- On a limiter that the constructor built, without a TTL and in EvictReject mode, every run of requests
-- on any keys is answered, while the clock does not go back, and for each key no window of the
-- configured length, wherever it ends, holds more than `limit` requests that were let through. (The
-- runtime ranges over entries of the map, in any order.)
pub run-count_in :
    (visit : Time → List (Key × KeyEntry WindowState) → List (Key × KeyEntry WindowState))
    (ranges : (now : Time) → Ranges (visit now)) (limit : ℤ) (window : Duration)
    (opts : List Setting) (sw : SlidingWindow) (first : Time) (reqs : List (Key × Time))
    → new_sliding_window limit window opts ≡ built sw
    → cleanup_off sw.opts ≡ true
    → is_lru sw.opts ≡ false
    → InOrder first reqs
    → (t : SlidingWindow) × (log : List (Key × Time)) × (run visit sw reqs [] ≡ some (t, log))
      × ((k : Key) (end : Time) → count_in sw.window end (times k log) ≤ sw.limit)
unfolding times
run-count_in visit ranges limit window opts sw first reqs e off reject asc =
    let (fit, fresh) = built-Fit limit window opts sw e in
    let sound = Sound-Fresh limit window (configure opts) sw first fit fresh in
    let positive = sound.positive in
    let start : AllTrack visit ranges sw positive off reject sw.store first [] = record {
      sound = sound;
      each = λ k.
          subst (λ w. Tracks sw.limit sw.window positive first (log_of w) [])
            (sym (Fresh-peek limit window (configure opts) sw fit fresh k))
            (start-Tracks sw.limit sw.window positive first);
    } in
    let (end, t, log, done, all) =
      run-AllTrack visit ranges sw positive off reject reqs sw.store [] first start asc in
    (record sw { store = t }, log, done, λ k u. (all.each k).limited u)
