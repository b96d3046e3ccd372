-- ===== src/Contract/Calls.antt =====
-- internal/contracttest/contracttest.go: calls on the limiter of memory/sliding_window_log.go, whose times
-- may come in any order.
use kaka.Prelude.{
  ℕ, ◌<◌, ◌≡◌, refl, sym, ap, ◌∙◌, ◌⊎◌, inl, inr, true, false, key_eq, key_eq_iff, Option, none,
  some, List, [], ◌∷◌, Bool-cases, arith,
}
use mathlib.Core.Path.{subst}
use mathlib.Core.Option.{some-injective}
use kaka.Core.{Key, Result, Reply, returns, fails, memory_invalid_key}
use kaka.Clock.{Time}
use kaka.Key.Blank.{Spaces, is_blank, is_blank-Spaces}
use kaka.Key.{validate_memory}
use kaka.Memory.Shard.{KeyEntry}
use kaka.Memory.Shard.Cleaning.{Ranges}
use kaka.Memory.Window.{WindowState, empty_window}
use kaka.Memory.Window.Unordered.{Fits, Fair, record_and_decide-Fair}
use kaka.Memory.Store.{Store, is_lru, ran}
use kaka.Memory.Store.Promise.{peek, Valid, with_state-Promised}
use kaka.Memory.SlidingWindow.{SlidingWindow, report, decide, allow}
use kaka.Memory.SlidingWindow.Sound.{Sound, peek-report, Valid-report}
use kaka.Contract.{check_outcomes, call_all, run_workers}

module _ (visit : Time → List (Key × KeyEntry WindowState) → List (Key × KeyEntry WindowState))
    (sw : SlidingWindow) where
  -- The limiter with the store `s`, asked by a caller that read the time `now`.
  unfoldable pub call : Time → Key → Store WindowState → Option (Reply × Store WindowState)
  call now key s = elim (allow visit (record sw { store = s }) key now) [
    | none ↦ none
    | some (t, r, events) ↦ some (r, t.store)
  ]

module _ (visit : Time → List (Key × KeyEntry WindowState) → List (Key × KeyEntry WindowState))
    (ranges : (now : Time) → Ranges (visit now)) (sw : SlidingWindow) (lru : is_lru sw.opts ≡ true)
    (positive : 0 < sw.limit) where
  -- Each log fits, whatever the order of its entries.
  pub record Loose (s : Store WindowState) : Type 0 where
    pub valid : Valid sw.opts s
    pub windows : (k : Key) (w : WindowState) → peek sw.opts s k ≡ some w → Fits sw.limit w

  pub Sound-Loose :
      {s : Store WindowState} {now : Time} → Sound (record sw { store = s }) now → Loose s
  Sound-Loose v = record {
    valid = v.store;
    windows = λ k w e. let x = v.windows k w e in record { fits = x.fits; room = x.room };
  }

  abbrev told : Reply → Store WindowState → Store WindowState
  told r s = (report sw.opts.sink r s).0

  told-Loose :
      (r : Reply) (s : Store WindowState)
      → Valid sw.opts s
      → ((k : Key) (w : WindowState) → peek sw.opts s k ≡ some w → Fits sw.limit w)
      → Loose (told r s)
  told-Loose r s v windows = record {
    valid = Valid-report sw.opts sw.opts.sink r s v;
    windows = λ k w e. windows k w (sym (peek-report sw.opts sw.opts.sink r s k) ∙ e);
  }

  -- A call's answer, and what it leaves.
  pub record Called (now : Time) (key : Key) (s : Store WindowState) : Type 0 where
    pub left : Store WindowState
    pub result : Result
    pub outcome : call visit sw now key s ≡ some (returns result, left)
    pub loose : Loose left
    pub fair : Fair result

  module _ (now : Time) (key : Key) (s : Store WindowState) (v : Loose s) where
    starts-Fits :
        (w : WindowState)
        → (peek sw.opts s key ≡ some w) ⊎ ((peek sw.opts s key ≡ none) × (w ≡ empty_window))
        → Fits sw.limit w
    starts-Fits w (inl e) = v.windows key w e
    starts-Fits w (inr (gone, e)) =
        subst (Fits sw.limit) (sym e) (record { fits = omega arith; room = omega arith })

    -- The logs after the call.
    others-Fits :
        (t : Store WindowState) (w' : WindowState)
        → ((j : Key)
            → key_eq key j ≡ false
            → (peek sw.opts t j ≡ none) ⊎ (peek sw.opts t j ≡ peek sw.opts s j))
        → peek sw.opts t key ≡ some w'
        → Fits sw.limit w'
        → (k : Key) (w : WindowState) → peek sw.opts t k ≡ some w
        → Fits sw.limit w
    others-Fits t w' others kept good k w e = elim (Bool-cases (key_eq key k)) [
      | inl same ↦
          subst (Fits sw.limit)
            (some-injective _ _ (sym kept ∙ ap (peek sw.opts t) ((key_eq_iff key k).0 same) ∙ e))
            good
      | inr other ↦ elim (others k other) [
        | inl gone ↦ absurd (ground (arith, gone, e))
        | inr before ↦ v.windows k w (sym before ∙ e)
      ]
    ]

    -- Whatever time it has read, a call is answered by the log, with numbers that are not negative.
    pub calls : ¬ Spaces key → Called now key s
    unfolding call allow validate_memory
    calls open_key =
        let open_test : is_blank key ≡ false = elim (Bool-cases (is_blank key)) [
          | inl blank ↦ absurd (open_key ((is_blank-Spaces key).0 blank))
          | inr e ↦ e
        ] in
        let (t, x, stored, p) =
          with_state-Promised visit sw.opts (λ i. empty_window) now (decide visit sw) key s v.valid
            (ranges now) in
        elim p.outcome [
          | inr full ↦ absurd (ground (arith, lru, full.mode))
          | inl a ↦
              let (w', r, decision, good, fair) =
                record_and_decide-Fair sw.limit sw.window a.before now positive
                  (starts-Fits a.before a.origin) in
              let outcome : decide visit sw a.before now ≡ (w', some r) =
                ground (arith, decision) in
              let verdict : x ≡ ran (some r) = a.verdict ∙ ap (λ y. ran y.1) outcome in
              let kept : peek sw.opts t key ≡ some w' = a.after ∙ ap (λ y. some y.0) outcome in
              record {
                left = told (returns r) t;
                result = r;
                outcome = rw (call, allow, open_test, stored, verdict) refl;
                loose = told-Loose (returns r) t p.valid (others-Fits t w' p.others kept good);
                fair = fair;
              }
        ]

    -- A blank key is refused.
    pub refused : Spaces key → call visit sw now key s ≡ some (fails memory_invalid_key, s)
    unfolding call allow validate_memory
    refused spaces =
        let e : validate_memory key ≡ some memory_invalid_key =
          ground (arith, (is_blank-Spaces key).1 spaces) in
        rw (call, allow, e) refl

  -- The calls of workers pass.
  calls_pass :
      (read : ℕ → Time) (key : ℕ → Key) (order : List ℕ) (s : Store WindowState)
      → ((i : ℕ) → ¬ Spaces (key i))
      → Loose s
      → (outs : List Reply) × (t : Store WindowState) × (call_all (call visit sw) read key order s
          ≡ some (outs, t))
        × (check_outcomes outs ≡ none)
        × Loose t
  unfolding call_all check_outcomes
  calls_pass read key [] s open_keys v = ([], s, refl, refl, v)
  calls_pass read key (i ∷ is) s open_keys v =
      let c = calls (read i) (key i) s v (open_keys i) in
      let fair = c.fair in
      let (outs, t, e, passes, loose) = calls_pass read key is c.left open_keys c.loose in
      (
        returns c.result ∷ outs,
        t,
        rw (c.outcome, call_all, e) refl,
        ground (arith, fair.remaining_above, fair.wait_above, passes),
        loose,
      )

  pub workers_pass :
      (read : ℕ → Time) (key : ℕ → Key) (order : List ℕ) (s : Store WindowState)
      → ((i : ℕ) → ¬ Spaces (key i))
      → Loose s
      → (t : Store WindowState) × (run_workers (call visit sw) read key order s ≡ some (none, t))
        × Loose t
  workers_pass read key order s open_keys v =
      let (outs, t, e, passes, loose) = calls_pass read key order s open_keys v in
      (t, rw (run_workers, e, passes) refl, loose)

pub open_user : (c : ℕ) (rest : Key) → ¬ Spaces (117 ∷ c ∷ rest)
unfolding is_blank
open_user c rest w = absurd (ground (arith, (is_blank-Spaces (117 ∷ c ∷ rest)).1 w))
