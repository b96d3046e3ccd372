-- ===== src/Memory/Window/Validity.antt =====
-- memory/sliding_window_log.go: the invariant of a key's log, and what every request answers.
use kaka.Prelude.{
  ℕ, ◌+◌, ◌-◌, ◌≤◌, ◌<◌, ◌≡◌, refl, ap, sym, ◌∙◌, pos, ◌+ℤ◌, ◌-ℤ◌, ◌≤ℤ◌, int_laws, some, true,
  false, inl, inr, Bool-cases, List, [], ◌∷◌, ◌++◌, length, length-append, ltb, if◌then◌else◌,
  arith,
}
use mathlib.Core.Path.{subst}
use mathlib.Core.Option.{some-injective}
use kaka.Core.{Result}
use kaka.Clock.{Time, Duration, time_sub}
use kaka.Memory.Window.{WindowState, append_window_log, decide_window, record_and_decide}
use kaka.Memory.Window.Search.{IsSorted}
use kaka.Memory.Window.Log.{
  keep_after, count_after, AllBefore, length-keep_after, count_after-le, keep_after-IsSorted,
  keep_after-AllBefore, AllBefore-mono, AllBefore-append, IsSorted-append,
  record_and_decide-decide_window,
}

-- The log of a key whose last request came at `last`.
pub record IsValid (limit : ℕ) (last : Time) (s : WindowState) : Type 0 where
  pub sorted : IsSorted s.logs
  pub past : AllBefore last s.logs
  pub within : length s.logs ≤ limit
  pub fits : length s.logs ≤ s.cap
  pub room : s.cap ≤ limit

-- The answer to a request at `now`, by the entries of the window that ends there.
pub record Answers (limit : ℕ) (window : Duration) (s : WindowState) (now : Time) (t : WindowState)
    (r : Result) : Type 0 where
  pub verdict : r.allowed ≡ ltb (count_after (now -ℤ window) s.logs) limit
  pub log : t.logs ≡ (
      if r.allowed
      then keep_after (now -ℤ window) s.logs ++ now ∷ []
      else keep_after (now -ℤ window) s.logs)
  pub left :
      r.remaining
      ≡ (if r.allowed then pos (limit - (count_after (now -ℤ window) s.logs + 1)) else pos 0)
  pub no_wait : r.allowed ≡ true → r.retry_after ≡ pos 0
  pub wait :
      r.allowed ≡ false
      → (oldest : Time) × (rest : List Time) × (keep_after (now -ℤ window) s.logs ≡ oldest ∷ rest)
        × (r.retry_after ≡ time_sub (oldest +ℤ window) now)

append_window_log-logs :
    (s : WindowState) (now : Time) (limit : ℕ)
    → (append_window_log s now limit).logs ≡ s.logs ++ now ∷ []
unfolding append_window_log
append_window_log-logs s now limit = ground arith

append_window_log-cap :
    (s : WindowState) (now : Time) (limit : ℕ)
    → length s.logs < limit
    → s.cap ≤ limit
    → (length s.logs + 1 ≤ (append_window_log s now limit).cap)
      × ((append_window_log s now limit).cap ≤ limit)
unfolding append_window_log
append_window_log-cap s now limit h k = ground arith

head_of_pos {ℓ} : {A : Type ℓ} (l : List A) → 0 < length l → (x : A) × (xs : List A) × (l ≡ x ∷ xs)
head_of_pos [] h = absurd (omega arith)
head_of_pos (x ∷ xs) h = (x, xs, refl)

module _ (limit : ℕ) (window : Duration) (now : Time) (s : WindowState) where
  -- The decision on the trimmed log `s`.
  pub record Decided : Type 0 where
    pub state : WindowState
    pub result : Result
    pub outcome : decide_window limit window s now ≡ some (state, result)
    pub verdict : result.allowed ≡ ltb (length s.logs) limit
    pub log : state.logs ≡ (if result.allowed then s.logs ++ now ∷ [] else s.logs)
    pub left :
        result.remaining ≡ (if result.allowed then pos (limit - (length s.logs + 1)) else pos 0)
    pub no_wait : result.allowed ≡ true → result.retry_after ≡ pos 0
    pub wait :
        result.allowed ≡ false
        → (oldest : Time) × (rest : List Time) × (s.logs ≡ oldest ∷ rest)
          × (result.retry_after ≡ time_sub (oldest +ℤ window) now)
    pub caps :
        length s.logs ≤ limit
        → length s.logs ≤ s.cap
        → s.cap ≤ limit
        → (length state.logs ≤ state.cap) × (state.cap ≤ limit)

  abbrev pushed : WindowState
  pushed = append_window_log s now limit

  remaining_after :
      length s.logs < limit
      → pos limit -ℤ pos (length pushed.logs) ≡ pos (limit - (length s.logs + 1))
  remaining_after h =
      rw (append_window_log-logs s now limit) (omega (int_laws, length-append s.logs (now ∷ [])))

  pushed_caps :
      length s.logs < limit
      → s.cap ≤ limit
      → (length pushed.logs ≤ pushed.cap) × (pushed.cap ≤ limit)
  pushed_caps h k =
      let c = append_window_log-cap s now limit h k in
      let n = ap length (append_window_log-logs s now limit) in
      (omega (arith, n, length-append s.logs (now ∷ []), c.0), c.1)

  decided_room : ltb (length s.logs) limit ≡ true → Decided
  decided_room h = record {
    state = pushed;
    result = record {
      allowed = true;
      remaining = pos limit -ℤ pos (length pushed.logs);
      retry_after = pos 0;
    };
    outcome = unfold decide_window in rw h;
    verdict = ground arith;
    log = append_window_log-logs s now limit;
    left = remaining_after (ground arith);
    no_wait = λ e. refl;
    wait = λ e. cc;
    caps = λ p q r. pushed_caps (ground arith) r;
  }

  decided_full :
      ltb (length s.logs) limit ≡ false
      → (oldest : Time) (rest : List Time) → s.logs ≡ oldest ∷ rest
      → Decided
  decided_full h oldest rest e = record {
    state = s;
    result = record {
      allowed = false;
      remaining = pos 0;
      retry_after = time_sub (oldest +ℤ window) now;
    };
    outcome = unfold decide_window in ground arith;
    verdict = ground arith;
    log = refl;
    left = refl;
    no_wait = λ e. cc;
    wait = λ _. (oldest, rest, e, refl);
    caps = λ p q r. (q, r);
  }

  pub decided : 0 < limit → Decided
  decided positive = elim (Bool-cases (ltb (length s.logs) limit)) [
    | inl h ↦ decided_room h
    | inr h ↦
        let (oldest, rest, e) = head_of_pos s.logs (ground arith) in decided_full h oldest rest e
  ]

module _ (limit : ℕ) (window : Duration) (s : WindowState) (now : Time) where
  abbrev pub kept : WindowState
  kept = record s { logs = keep_after (now -ℤ window) s.logs }

  -- On a sorted log a request is answered, with no index out of range: it is let through exactly if
  -- fewer than `limit` logged requests are younger than the window, and only then is it logged; the
  -- entries that fell out of the window are dropped; what remains is counted right.
  pub record_and_decide-Answers :
      0 < limit
      → IsSorted s.logs
      → (t : WindowState) × (r : Result) × (record_and_decide limit window s now ≡ some (t, r))
        × Answers limit window s now t r
  record_and_decide-Answers positive sorted =
      let d = decided limit window now kept positive in
      (
        d.state,
        d.result,
        record_and_decide-decide_window limit window s now sorted ∙ d.outcome,
        record {
          verdict = rw (← length-keep_after (now -ℤ window) s.logs) d.verdict;
          log = d.log;
          left = rw (← length-keep_after (now -ℤ window) s.logs) d.left;
          no_wait = d.no_wait;
          wait = d.wait;
        },
      )

  kept-le : length kept.logs ≤ length s.logs
  kept-le =
      omega (arith, length-keep_after (now -ℤ window) s.logs, count_after-le (now -ℤ window) s.logs)

  decided-IsValid :
      {last : Time}
      → last ≤ℤ now
      → IsValid limit last s
      → (d : Decided limit window now kept) → IsValid limit now d.state
  decided-IsValid {last} h v d =
      let sorted = keep_after-IsSorted (now -ℤ window) s.logs v.sorted in
      let past : AllBefore now kept.logs =
        AllBefore-mono last now kept.logs h
          (keep_after-AllBefore last (now -ℤ window) s.logs v.past) in
      let caps =
        d.caps (omega (arith, kept-le, v.within)) (omega (arith, kept-le, v.fits)) v.room in
      elim (Bool-cases d.result.allowed) [
        | inl p ↦
            let e : d.state.logs ≡ kept.logs ++ now ∷ [] = rw p at d.log in
            record {
              sorted = rw e (IsSorted-append now kept.logs sorted past);
              past = rw e (AllBefore-append now kept.logs past);
              within = omega (arith, caps.0, caps.1);
              fits = caps.0;
              room = caps.1;
            }
        | inr p ↦
            let e : d.state.logs ≡ kept.logs = rw p at d.log in
            record {
              sorted = rw e sorted;
              past = rw e past;
              within = omega (arith, caps.0, caps.1);
              fits = caps.0;
              room = caps.1;
            }
      ]

  -- With a positive limit a valid log stays valid, as long as the clock does not go back: sorted, with
  -- no entry in the future, no longer than `limit`, and in an array of at most `limit` places.
  pub record_and_decide-IsValid :
      {last : Time} {t : WindowState} {r : Result}
      → 0 < limit
      → last ≤ℤ now
      → IsValid limit last s
      → record_and_decide limit window s now ≡ some (t, r)
      → IsValid limit now t
  record_and_decide-IsValid {last} {t} {r} positive h v e =
      let d = decided limit window now kept positive in
      let same : (d.state, d.result) ≡ (t, r) =
        some-injective _ _
          (sym d.outcome ∙ sym (record_and_decide-decide_window limit window s now v.sorted) ∙ e) in
      subst (IsValid limit now) (ap (λ x. x.0) same) (decided-IsValid h v d)

  pub Answers-of :
      {t : WindowState} {r : Result}
      → 0 < limit
      → IsSorted s.logs
      → record_and_decide limit window s now ≡ some (t, r)
      → Answers limit window s now t r
  Answers-of positive sorted e =
      let (t', r', e', a) = record_and_decide-Answers positive sorted in
      subst (λ x. Answers limit window s now x.0 x.1) (some-injective _ _ (sym e' ∙ e)) a

  -- What a denial leaves: the entries inside the window, and the wait until the oldest falls out.
  pub record Denial (t : WindowState) (r : Result) : Type 0 where
    pub oldest : Time
    pub rest : List Time
    pub young : keep_after (now -ℤ window) s.logs ≡ oldest ∷ rest
    pub trimmed : t.logs ≡ oldest ∷ rest
    pub full : limit ≤ length t.logs
    pub wait : r.retry_after ≡ time_sub (oldest +ℤ window) now

  denial : (d : Decided limit window now kept) → d.result.allowed ≡ false → Denial d.state d.result
  denial d h =
      let (oldest, rest, young, wait) = d.wait h in
      let same : d.state.logs ≡ kept.logs = rw h at d.log in
      record {
        oldest = oldest;
        rest = rest;
        young = young;
        trimmed = same ∙ young;
        full = ground (arith, d.verdict, ap length same);
        wait = wait;
      }

  pub Denial-of :
      {t : WindowState} {r : Result}
      → 0 < limit
      → IsSorted s.logs
      → record_and_decide limit window s now ≡ some (t, r)
      → r.allowed ≡ false
      → Denial t r
  Denial-of {t} {r} positive sorted e =
      let d = decided limit window now kept positive in
      let same : (d.state, d.result) ≡ (t, r) =
        some-injective _ _
          (sym d.outcome ∙ sym (record_and_decide-decide_window limit window s now sorted) ∙ e) in
      subst (λ x. x.1.allowed ≡ false → Denial x.0 x.1) same (denial d)
