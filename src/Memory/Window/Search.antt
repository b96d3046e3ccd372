-- ===== src/Memory/Window/Search.antt =====
-- memory/sliding_window_log.go: the binary search finds the first log entry inside the window.
use kaka.Prelude.{
  ℕ, zero, suc, ◌+◌, ◌-◌, ◌/◌, ◌≤◌, ◌<◌, ◌≡◌, pos, ◌≤ℤ◌, ◌<ℤ◌, some, true, false, inl, inr,
  Bool-cases, List, [], ◌∷◌, length, get_elem?, get_or, get_elem?-eq-get_or, ltb, arith,
}
use kaka.Clock.{Time}
use kaka.Memory.Window.{after, search_from, valid_index}

infixl 90 ◌!◌
abbrev pub ◌!◌ : List Time → ℕ → Time
logs ! i = get_or logs i (pos 0)

abbrev pub AllAfter : Time → List Time → Type 0
AllAfter t [] = Unit {0}
AllAfter t (u ∷ us) = (t ≤ℤ u) × AllAfter t us

-- Oldest first.
abbrev pub IsSorted : List Time → Type 0
IsSorted [] = Unit {0}
IsSorted (t ∷ ts) = AllAfter t ts × IsSorted ts

AllAfter-get : (t : Time) (us : List Time) (i : ℕ) → AllAfter t us → i < length us → t ≤ℤ us ! i
AllAfter-get t [] i a h = absurd (omega arith)
AllAfter-get t (u ∷ us) zero a h = a.0
AllAfter-get t (u ∷ us) (suc i) a h = AllAfter-get t us i a.1 (omega arith)

IsSorted-get : (ts : List Time) (i j : ℕ) → IsSorted ts → i ≤ j → j < length ts → ts ! i ≤ℤ ts ! j
IsSorted-get [] i j s h k = absurd (omega arith)
IsSorted-get (t ∷ ts) zero zero s h k = omega arith
IsSorted-get (t ∷ ts) zero (suc j) s h k = AllAfter-get t ts j s.0 (omega arith)
IsSorted-get (t ∷ ts) (suc i) zero s h k = absurd (omega arith)
IsSorted-get (t ∷ ts) (suc i) (suc j) s h k = IsSorted-get ts i j s.1 (omega arith) (omega arith)

-- `v` splits the log at `start`.
pub record Splits (logs : List Time) (start : Time) (v : ℕ) : Type 0 where
  pub inside : v ≤ length logs
  pub old : (i : ℕ) → i < v → logs ! i ≤ℤ start
  pub young : (i : ℕ) → v ≤ i → i < length logs → start <ℤ logs ! i

module _ (logs : List Time) (start : Time) (sorted : IsSorted logs) where
  late_above :
      (m i : ℕ) → after (logs ! m) start ≡ true → m ≤ i → i < length logs → start <ℤ logs ! i
  late_above m i late h k = ground (arith, IsSorted-get logs m i)

  early_below :
      (m i : ℕ) → after (logs ! m) start ≡ false → i ≤ m → m < length logs → logs ! i ≤ℤ start
  early_below m i early h k = ground (arith, IsSorted-get logs i m)

  search_from-Splits :
      (fuel left stop : ℕ)
      → stop - left < fuel
      → left ≤ stop
      → stop ≤ length logs
      → ((i : ℕ) → i < left → logs ! i ≤ℤ start)
      → ((i : ℕ) → stop ≤ i → i < length logs → start <ℤ logs ! i)
      → (v : ℕ) × (search_from fuel logs start left stop stop ≡ some v) × Splits logs start v
  unfolding search_from
  search_from-Splits zero left stop f h k old young = absurd (omega arith)
  search_from-Splits (suc fuel) left stop f h k old young = elim (Bool-cases (ltb left stop)) [
    | inr done ↦
        (stop, rw done, record { inside = k; old = λ i p. old i (ground arith); young = young })
    | inl more ↦
        let mid = left + (stop - 1 - left) / 2 in
        let below : mid < stop = ground arith in
        let cell : get_elem? logs mid ≡ some (logs ! mid) =
          get_elem?-eq-get_or logs mid (pos 0) (omega arith) in
        elim (Bool-cases (after (logs ! mid) start)) [
          | inl late ↦
              let (v, found, split) =
                search_from-Splits fuel left mid (omega arith) (omega arith) (omega arith) old
                  (λ i p q. late_above mid i late p q) in
              (v, rw (more, cell, late) found, split)
          | inr early ↦
              let (v, found, split) =
                search_from-Splits fuel (mid + 1) stop (omega arith) (omega arith) k
                  (λ i p. early_below mid i early (omega arith) (omega arith)) young in
              (v, rw (more, cell, early) found, split)
        ]
  ]

  -- On a sorted log the search ends, and splits the log at the window's start.
  pub valid_index-Splits : (v : ℕ) × (valid_index logs start ≡ some v) × Splits logs start v
  unfolding valid_index
  valid_index-Splits =
      search_from-Splits (suc (length logs)) 0 (length logs) (omega arith) (omega arith)
        (omega arith) (λ i h. absurd (omega arith)) (λ i h k. absurd (omega arith))
