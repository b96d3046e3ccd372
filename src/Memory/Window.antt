-- ===== src/Memory/Window.antt =====
-- memory/sliding_window_log.go: what happens to one key's log under the shard lock.
-- A slice is its elements with its capacity. `none` is a run-time panic or a loop out of fuel; both
-- are shown not to happen.
pub mod Search
pub mod Log
pub mod Validity
pub mod Unordered
pub mod Limit
pub mod Retry
mod Tests
use kaka.Prelude.{
  ℕ, zero, suc, ◌+◌, ◌-◌, ◌*◌, ◌/◌, ℤ, pos, ◌+ℤ◌, ◌-ℤ◌, ltb_ℤ, Bool, true, false, Option, none,
  some, List, [], ◌∷◌, ◌++◌, length, get_elem?, drop, ltb, if◌then◌else◌,
}
use kaka.Core.{Result}
use kaka.Clock.{Time, Duration, time_sub}

-- `windowState`
pub record WindowState : Type 0 where
  pub logs : List Time
  pub cap : ℕ

-- `make([]time.Time, 0)`
abbrev pub empty_window : WindowState
empty_window = record { logs = []; cap = 0 }

-- `t.After(u)`
abbrev pub after : Time → Time → Bool
after t u = ltb_ℤ u t

-- The binary search. `stop` is `right + 1`, so that it is never negative.
unfoldable pub search_from : ℕ → List Time → Time → ℕ → ℕ → ℕ → Option ℕ
search_from zero logs start left stop valid = none
search_from (suc fuel) logs start left stop valid =
    let mid = left + (stop - 1 - left) / 2 in
    let lower = search_from fuel logs start left mid mid in
    let upper = search_from fuel logs start (mid + 1) stop valid in
    if ltb left stop
    then elim (get_elem? logs mid) [ none ↦ none | some t ↦ if after t start then lower else upper ]
    else some valid

unfoldable pub valid_index : List Time → Time → Option ℕ
unfolding search_from
valid_index logs start = search_from (suc (length logs)) logs start 0 (length logs) (length logs)

-- `copy(logs, logs[i:])` and `logs[:n]`: the elements from `i` on, in the same array.
unfoldable pub trim : WindowState → ℕ → WindowState
trim s i = if ltb 0 i then record s { logs = drop i s.logs } else s

unfoldable pub grown_cap : ℕ → ℕ → ℕ → ℕ
grown_cap len cap limit =
    let doubled = cap * 2 in
    let positive : ℕ = if ltb doubled 1 then 1 else doubled in
    let capped = if ltb limit positive then limit else positive in
    if ltb capped (len + 1) then len + 1 else capped

unfoldable pub append_window_log : WindowState → Time → ℕ → WindowState
unfolding grown_cap
append_window_log s now limit =
    if ltb (length s.logs) s.cap
    then record s { logs = s.logs ++ now ∷ [] }
    else record { logs = s.logs ++ now ∷ []; cap = grown_cap (length s.logs) s.cap limit }

-- The decision on the trimmed log.
unfoldable pub decide_window : ℕ → Duration → WindowState → Time → Option (WindowState × Result)
unfolding append_window_log
decide_window limit window s now =
    if ltb (length s.logs) limit
    then (let t = append_window_log s now limit in
        some (
          t,
          record {
            allowed = true;
            remaining = pos limit -ℤ pos (length t.logs);
            retry_after = pos 0;
          },
        ))
    else elim s.logs [
      | [] ↦ none
      | oldest ∷ _ ↦ some (
        s,
        record {
          allowed = false;
          remaining = pos 0;
          retry_after = time_sub (oldest +ℤ window) now;
        },
      )
    ]

unfoldable pub record_and_decide : ℕ → Duration → WindowState → Time → Option (WindowState × Result)
unfolding valid_index trim decide_window
record_and_decide limit window s now = elim (valid_index s.logs (now -ℤ window)) [
  | none ↦ none
  | some i ↦ decide_window limit window (trim s i) now
]
