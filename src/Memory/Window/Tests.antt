-- ===== src/Memory/Window/Tests.antt =====
-- memory/sliding_window_log.go: runs, and the theorems at concrete logs.
use kaka.Prelude.{
  ◌+ℤ◌, ◌-ℤ◌, ℕ, ◌≡◌, refl, pos, ◌≤ℤ◌, leb_ℤ, some, true, false, List, [], ◌∷◌, arith, ◌≤◌, ◌<ℤ◌,
}
use kaka.Core.{Result}
use kaka.Clock.{Time, time_sub}
use kaka.Memory.Window.{
  WindowState, empty_window, search_from, valid_index, trim, decide_window, append_window_log,
  record_and_decide,
}
use kaka.Memory.Window.Search.{Splits, valid_index-Splits}
use kaka.Memory.Window.Validity.{
  IsValid, Answers, record_and_decide-Answers, record_and_decide-IsValid,
}
use kaka.Memory.Window.Limit.{serve, count_in, serve-count_in}
use kaka.Memory.Window.Retry.{retry_after_exact}

abbrev full_log : WindowState
full_log = record { logs = pos 1 ∷ pos 5 ∷ []; cap = 2 }

abbrev denied_at_six : Result
denied_at_six = record { allowed = false; remaining = pos 0; retry_after = pos 5 }

abbrev allowed_last : Result
allowed_last = record { allowed = true; remaining = pos 0; retry_after = pos 0 }

abbrev log_at_eleven : WindowState
log_at_eleven = record { logs = pos 5 ∷ pos 11 ∷ []; cap = 2 }

search_test : valid_index (pos 1 ∷ pos 5 ∷ pos 5 ∷ pos 9 ∷ []) (pos 5) ≡ some 3
unfolding valid_index search_from
search_test = refl

denied_test : record_and_decide 2 (pos 10) full_log (pos 6) ≡ some (full_log, denied_at_six)
unfolding record_and_decide valid_index search_from trim decide_window ◌-ℤ◌ ◌+ℤ◌ time_sub
denied_test = refl

allowed_test : record_and_decide 2 (pos 10) full_log (pos 11) ≡ some (log_at_eleven, allowed_last)
unfolding record_and_decide valid_index search_from trim decide_window append_window_log ◌-ℤ◌
allowed_test = refl

full_log-IsValid : IsValid 2 (pos 5) full_log
full_log-IsValid = omega arith

serve-count_in_example :
    (s : WindowState) × (granted : List Time) × (serve 2
        (pos 10)
        (pos 1 ∷ pos 5 ∷ pos 6 ∷ pos 11 ∷ [])
        empty_window
        []
      ≡ some (s, granted))
    × ((t : Time) → count_in (pos 10) t granted ≤ 2)
serve-count_in_example =
    serve-count_in 2 (pos 10) (pos 0) (pos 1 ∷ pos 5 ∷ pos 6 ∷ pos 11 ∷ []) (omega arith)
      (omega arith)

retry_after_exact_example : (true ≡ leb_ℤ (pos 5) (pos 5)) × (pos 0 <ℤ pos 5) × (pos 5 ≤ℤ pos 10)
unfolding ◌+ℤ◌
retry_after_exact_example =
    retry_after_exact 2 (pos 10) full_log (pos 6) (omega arith) full_log-IsValid (omega arith)
      (omega arith) (omega arith) denied_test refl (pos 5) log_at_eleven allowed_last allowed_test

record_and_decide-Answers_example :
    (t : WindowState) × (r : Result) × (record_and_decide 2 (pos 10) full_log (pos 6) ≡ some (t, r))
    × Answers 2 (pos 10) full_log (pos 6) t r
record_and_decide-Answers_example =
    record_and_decide-Answers 2 (pos 10) full_log (pos 6) (omega arith) full_log-IsValid.sorted

record_and_decide-IsValid_example : IsValid 2 (pos 11) log_at_eleven
record_and_decide-IsValid_example =
    record_and_decide-IsValid 2 (pos 10) full_log (pos 11) (omega arith) (omega arith)
      full_log-IsValid allowed_test

valid_index-Splits_example :
    (v : ℕ) × (valid_index full_log.logs (pos 1) ≡ some v) × Splits full_log.logs (pos 1) v
valid_index-Splits_example = valid_index-Splits full_log.logs (pos 1) full_log-IsValid.sorted
