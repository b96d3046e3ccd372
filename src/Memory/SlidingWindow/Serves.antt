-- ===== src/Memory/SlidingWindow/Serves.antt =====
-- memory/sliding_window_log.go, `Allow` on its store: what every request gets.
use kaka.Prelude.{
  ◌≡◌, sym, ap, ◌∙◌, ◌⊎◌, inl, inr, ◌≤ℤ◌, false, Option, none, some, List, [], ◌∷◌, key_eq,
  key_eq_iff, if◌then◌else◌, Bool-cases, arith,
}
use mathlib.Core.Path.{subst}
use mathlib.Core.Option.{some-injective}
use kaka.Core.{
  Key, Result, Reply, returns, fails, memory_invalid_key, max_keys_exceeded, Event, on_error,
  tier_single,
}
use kaka.Clock.{Time}
use kaka.Key.Blank.{Spaces}
use kaka.Key.{validate_memory, validate_memory-Spaces}
use kaka.Memory.Shard.{KeyEntry}
use kaka.Memory.Shard.Cleaning.{Ranges}
use kaka.Memory.Window.{WindowState, empty_window, record_and_decide}
use kaka.Memory.Window.Validity.{
  IsValid, Answers, record_and_decide-Answers, record_and_decide-IsValid,
}
use kaka.Memory.Store.{Store, is_lru, Verdict, with_state, ran}
use kaka.Memory.Store.Promise.{peek, Valid, Ran, Full, Promised, with_state-Promised}
use kaka.Memory.SlidingWindow.{SlidingWindow, report, decide, answered, allow}
use kaka.Memory.SlidingWindow.Sound.{Sound, peek-report, live-report, Valid-report, IsValid-mono}

-- How a request at `now` ends: the key is refused, its log decides, or the store has no room for it.
pub data Ruled (sw : SlidingWindow) (key : Key) (now : Time)
    : Store WindowState → Reply → Type 0 where
  blank : Spaces key → Ruled sw key now sw.store (fails memory_invalid_key)
  decided :
      {t : Store WindowState} (w w' : WindowState) (r : Result)
      → ¬ Spaces key
      → (peek sw.opts sw.store key ≡ some w)
        ⊎ ((peek sw.opts sw.store key ≡ none) × (w ≡ empty_window))
      → peek sw.opts t key ≡ some w'
      → Answers sw.limit sw.window w now w' r
      → Ruled sw key now t (returns r)
  full :
      {t : Store WindowState}
      → ¬ Spaces key
      → is_lru sw.opts ≡ false
      → peek sw.opts sw.store key ≡ none
      → peek sw.opts t key ≡ none
      → t.live ≡ sw.opts.max_keys
      → Ruled sw key now t (fails max_keys_exceeded)

module _ (visit : Time → List (Key × KeyEntry WindowState) → List (Key × KeyEntry WindowState))
    (ranges : (now : Time) → Ranges (visit now)) (sw : SlidingWindow) (key : Key) (now last : Time)
    (forward : last ≤ℤ now) (sound : Sound sw last) where
  abbrev fn : WindowState → Time → WindowState × Option Result
  fn = decide visit sw

  -- The store after the sink was told.
  abbrev told : Reply → Store WindowState → Store WindowState
  told r s = (report sw.opts.sink r s).0

  told-Sound :
      (r : Reply) (s : Store WindowState)
      → Valid sw.opts s
      → ((k : Key) (w : WindowState) → peek sw.opts s k ≡ some w → IsValid sw.limit now w)
      → Sound (record sw { store = told r s }) now
  told-Sound r s v windows = record {
    positive = sound.positive;
    store = Valid-report sw.opts sw.opts.sink r s v;
    windows = λ k w e. windows k w (sym (peek-report sw.opts sw.opts.sink r s k) ∙ e);
  }

  -- The log that the key's entry holds, or a new one.
  abbrev Starts : WindowState → Type 0
  Starts w =
      (peek sw.opts sw.store key ≡ some w)
      ⊎ ((peek sw.opts sw.store key ≡ none) × (w ≡ empty_window))

  Starts-IsValid : (w : WindowState) → Starts w → IsValid sw.limit last w
  Starts-IsValid w (inl e) = sound.windows key w e
  Starts-IsValid w (inr (gone, e)) = rw e (omega arith)

  -- The other keys' logs are those of before.
  others-IsValid :
      (s : Store WindowState)
      → ((j : Key)
          → key_eq key j ≡ false
          → (peek sw.opts s j ≡ none) ⊎ (peek sw.opts s j ≡ peek sw.opts sw.store j))
      → ((w : WindowState) → peek sw.opts s key ≡ some w → IsValid sw.limit now w)
      → (k : Key) (w : WindowState) → peek sw.opts s k ≡ some w
      → IsValid sw.limit now w
  others-IsValid s others own k w e = elim (Bool-cases (key_eq key k)) [
    | inl same ↦ own w (ap (peek sw.opts s) ((key_eq_iff key k).0 same) ∙ e)
    | inr other ↦ elim (others k other) [
      | inl gone ↦ absurd (ground (arith, gone, e))
      | inr before ↦ IsValid-mono forward (sound.windows k w (sym before ∙ e))
    ]
  ]

  decides :
      (w w' : WindowState) (r : Result)
      → record_and_decide sw.limit sw.window w now ≡ some (w', r)
      → fn w now ≡ (w', some r)
  decides w w' r e = ground (arith, e)

  -- The outcome of a request.
  abbrev pub Serves : Option (SlidingWindow × Reply × List Event) → Type 0
  Serves out =
      (t : Store WindowState) × (r : Reply) × (events : List Event) × (out
        ≡ some (record sw { store = t }, r, events))
      × Sound (record sw { store = t }) now
      × Ruled sw key now t r

  module _ (open_key : ¬ Spaces key) (e : validate_memory key ≡ none) (s : Store WindowState)
      (v : Verdict (Option Result))
      (stored : with_state visit sw.opts (λ t. empty_window) now fn key sw.store ≡ some (s, v))
      (p : Promised visit sw.opts (λ t. empty_window) now fn key sw.store s v) where
    run_outcome :
        Ran visit sw.opts (λ t. empty_window) now fn key sw.store s v
        → Serves (allow visit sw key now)
    unfolding allow
    run_outcome a =
        let valid = Starts-IsValid a.before a.origin in
        let (w', r, decision, answers) =
          record_and_decide-Answers sw.limit sw.window a.before now sound.positive valid.sorted in
        let outcome = decides a.before w' r decision in
        let verdict : v ≡ ran (some r) = a.verdict ∙ ap (λ x. ran x.1) outcome in
        let kept : peek sw.opts s key ≡ some w' = a.after ∙ ap (λ x. some x.0) outcome in
        let good =
          record_and_decide-IsValid sw.limit sw.window a.before now sound.positive forward valid
            decision in
        (
          told (returns r) s,
          returns r,
          (answered visit sw (returns r) s).2,
          rw (e, allow, stored, verdict),
          told-Sound (returns r) s p.valid (
              others-IsValid s p.others (λ w here.
                subst (IsValid sw.limit now) (some-injective _ _ (sym kept ∙ here)) good)),
          decided a.before w' r open_key a.origin
              (peek-report sw.opts sw.opts.sink (returns r) s key ∙ kept) answers,
        )

    refusal_outcome :
        Full visit sw.opts (λ t. empty_window) now fn key sw.store s v
        → Serves (allow visit sw key now)
    unfolding allow
    refusal_outcome a = (
      told (fails max_keys_exceeded) s,
      fails max_keys_exceeded,
      (answered visit sw (fails max_keys_exceeded) s).2,
      rw (e, allow, stored, a.verdict),
      told-Sound (fails max_keys_exceeded) s p.valid
          (others-IsValid s p.others (λ w here. absurd (ground (arith, a.still_new, here)))),
      full open_key a.mode a.new
          (peek-report sw.opts sw.opts.sink (fails max_keys_exceeded) s key ∙ a.still_new)
          (live-report sw.opts sw.opts.sink (fails max_keys_exceeded) s ∙ a.full),
    )

  -- Whatever the keys and the order of the requests, a request to a sound limiter is answered, with
  -- no run-time panic, and leaves a sound limiter: a blank key is refused; the log of the key itself,
  -- or an empty one if the store has none, decides, and what remains of it is kept; or the key is
  -- new and is refused, in EvictReject mode alone, with the store at its limit. (While the clock
  -- does not go back; the runtime ranges over entries of the map, in any order.)
  pub allow-Serves : Serves (allow visit sw key now)
  unfolding allow
  allow-Serves = elim (validate_memory-Spaces key) [
    | inl (w, e) ↦ (
      sw.store,
      fails memory_invalid_key,
      if sw.opts.sink then on_error tier_single memory_invalid_key ∷ [] else [],
      rw (e, allow),
      record {
        positive = sound.positive;
        store = sound.store;
        windows = λ k w here. IsValid-mono forward (sound.windows k w here);
      },
      blank w,
    )
    | inr (w, e) ↦
        let (s, v, stored, p) =
          with_state-Promised visit sw.opts (λ t. empty_window) now fn key sw.store sound.store
            (ranges now) in
        elim p.outcome [
          | inl a ↦ run_outcome w e s v stored p a
          | inr a ↦ refusal_outcome w e s v stored p a
        ]
  ]
