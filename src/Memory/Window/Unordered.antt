-- ===== src/Memory/Window/Unordered.antt =====
-- memory/sliding_window_log.go: `recordAndDecide` on a log whose entries stand in any order.
use kaka.Prelude.{
  ℕ, zero, suc, ◌+◌, ◌-◌, ◌/◌, ◌≤◌, ◌<◌, ◌≡◌, refl, sym, ap, ◌∙◌, ◌⊎◌, pos, ◌≤ℤ◌, ◌<ℤ◌, ◌+ℤ◌, ◌-ℤ◌,
  -ℤ_parts, some, true, inl, inr, Bool-cases, List, [], ◌∷◌, drop, length, length-drop, get_elem?,
  get_elem?-eq-get_or, ltb, arith, int_laws,
}
use kaka.Clock.{Time, Duration, time_sub}
use kaka.Core.{Result}
use kaka.Memory.Window.{WindowState, after, search_from, valid_index, trim, record_and_decide}
use kaka.Memory.Window.Search.{◌!◌}
use kaka.Memory.Window.Validity.{decided}

drop-head :
    (v : ℕ) (logs : List Time) (x : Time) (xs : List Time) → drop v logs ≡ x ∷ xs → logs ! v ≡ x
drop-head zero [] x xs e = cc
drop-head zero (t ∷ logs) x xs e = ground (arith, e)
drop-head (suc v) [] x xs e = cc
drop-head (suc v) (t ∷ logs) x xs e = drop-head v logs x xs e

module _ (logs : List Time) (start : Time) where
  -- The end of the log, or an entry in the window.
  abbrev pub Starts : ℕ → Type 0
  Starts v = (v ≡ length logs) ⊎ (after (logs ! v) start ≡ true)

  -- No index is out of range.
  search_from_ends :
      (fuel left stop valid : ℕ)
      → stop - left < fuel
      → left ≤ stop
      → stop ≤ length logs
      → Starts valid
      → (v : ℕ) × (search_from fuel logs start left stop valid ≡ some v) × Starts v
  unfolding search_from
  search_from_ends zero left stop valid f h k p = absurd (omega arith)
  search_from_ends (suc fuel) left stop valid f h k p = elim (Bool-cases (ltb left stop)) [
    | inr done ↦ (valid, rw done refl, p)
    | inl more ↦
        let mid = left + (stop - 1 - left) / 2 in
        let below : mid < stop = ground arith in
        let cell : get_elem? logs mid ≡ some (logs ! mid) =
          get_elem?-eq-get_or logs mid (pos 0) (omega arith) in
        elim (Bool-cases (after (logs ! mid) start)) [
          | inl late ↦
              let (v, found, starts) =
                search_from_ends fuel left mid mid (omega arith) (omega arith) (omega arith)
                  (inr late) in
              (v, rw (more, cell, late) found, starts)
          | inr early ↦
              let (v, found, starts) =
                search_from_ends fuel (mid + 1) stop valid (omega arith) (omega arith) k p in
              (v, rw (more, cell, early) found, starts)
        ]
  ]

  valid_index_ends : (v : ℕ) × (valid_index logs start ≡ some v) × Starts v
  unfolding valid_index
  valid_index_ends =
      search_from_ends (suc (length logs)) 0 (length logs) (length logs) (omega arith) (omega arith)
        (omega arith) (inl refl)

-- The log is no longer than `limit`, and so is its array.
pub record Fits (limit : ℕ) (s : WindowState) : Type 0 where
  pub fits : length s.logs ≤ s.cap
  pub room : s.cap ≤ limit

pub record Fair (r : Result) : Type 0 where
  pub remaining_above : pos 0 ≤ℤ r.remaining
  pub wait_above : pos 0 ≤ℤ r.retry_after

time_sub_nonneg : (t u : Time) → u <ℤ t → pos 0 ≤ℤ time_sub t u
unfolding time_sub
time_sub_nonneg t u h = ground (arith, -ℤ_parts t u, h)

module _ (limit : ℕ) (window : Duration) (s : WindowState) (now : Time) where
  trim-Fits : (i : ℕ) → Fits limit s → Fits limit (trim s i)
  unfolding trim
  trim-Fits i f = elim (Bool-cases (ltb 0 i)) [
    | inl some_old ↦
        rw (some_old, trim)
          (record { fits = omega (arith, length-drop i s.logs, f.fits); room = f.room })
    | inr none_old ↦ rw (none_old, trim) f
  ]

  trim-logs : (i : ℕ) → (trim s i).logs ≡ drop i s.logs
  unfolding trim
  trim-logs zero = refl
  trim-logs (suc i) = ground arith

  -- A request is answered, with no index out of range, and with numbers that are not negative.
  pub record_and_decide-Fair :
      0 < limit
      → Fits limit s
      → (t : WindowState) × (r : Result) × (record_and_decide limit window s now ≡ some (t, r))
        × Fits limit t
        × Fair r
  unfolding record_and_decide
  record_and_decide-Fair positive f =
      let (i, found, starts) = valid_index_ends s.logs (now -ℤ window) in
      let g = trim-Fits i f in
      let d = decided limit window now (trim s i) positive in
      let c = d.caps (omega (arith, g.fits, g.room)) g.fits g.room in
      (
        d.state,
        d.result,
        rw (found, record_and_decide) d.outcome,
        record { fits = c.0; room = c.1 },
        elim (Bool-cases d.result.allowed) [
          | inl granted ↦ record {
            remaining_above = ground (arith, d.left, granted);
            wait_above = ground (arith, d.no_wait granted);
          }
          | inr denied ↦
              let (oldest, rest, e, wait) = d.wait denied in
              let kept : drop i s.logs ≡ oldest ∷ rest = sym (trim-logs i) ∙ e in
              let young : now -ℤ window <ℤ oldest = elim starts [
                | inl gone ↦ absurd (omega (arith, gone, ap length kept, length-drop i s.logs))
                | inr late ↦ ground (arith, late, drop-head i s.logs oldest rest kept)
              ] in
              record {
                remaining_above = ground (arith, d.left, denied);
                wait_above =
                    rw wait (time_sub_nonneg (oldest +ℤ window) now (omega (int_laws, young)));
              }
        ],
      )

  -- A request is answered, with no index out of range.
  pub record_and_decide-Fits :
      0 < limit
      → Fits limit s
      → (t : WindowState) × (r : Result) × (record_and_decide limit window s now ≡ some (t, r))
        × Fits limit t
  record_and_decide-Fits positive f =
      let (t, r, e, g, fair) = record_and_decide-Fair positive f in (t, r, e, g)
