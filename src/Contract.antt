-- ===== src/Contract.antt =====
-- internal/contracttest/contracttest.go: the tests that every limiter is to pass. A test ends with a
-- message if it fails, here without the value that Go prints after it; `none` is a panic of the
-- limiter. A call first reads the clock, and takes effect later, when it has the lock of its key's shard:
-- `T` is what a call has read, an argument of `allow`. The workers' calls take effect in one order and
-- have read the clock in any other: both are arguments, a `Schedule`.
pub mod Calls
pub mod Window
use Prim.Native.String.{String}
use kaka.Prelude.{
  ℕ, zero, suc, ◌+◌, ◌%◌, pos, ltb_ℤ, eqb_ℤ, Bool, true, false, not, Option, none, some, List, [],
  ◌∷◌, ◌++◌, replicate, if◌then◌else◌,
}
use kaka.Core.{Key, Reply}

-- "user:"
abbrev pub user : Key
user = 117 ∷ 115 ∷ 101 ∷ 114 ∷ 58 ∷ []

abbrev pub user_1 : Key
user_1 = user ++ 49 ∷ []

abbrev pub user_shared : Key
user_shared = user ++ 115 ∷ 104 ∷ 97 ∷ 114 ∷ 101 ∷ 100 ∷ []

abbrev pub workers : ℕ
workers = 32

-- The key of worker `i`.
abbrev pub user_of : ℕ → Key
user_of i = user ++ (48 + i % 4) ∷ []

abbrev pub check_allowed : Reply → Option String
check_allowed allowed = elim allowed.err [
  | some e ↦ some "unexpected error on first allow"
  | none ↦
      if not allowed.result.allowed
      then some "expected first request to be allowed"
      else if ltb_ℤ allowed.result.remaining (pos 0)
      then some "expected non-negative remaining on allow"
      else if not (eqb_ℤ allowed.result.retry_after (pos 0))
      then some "expected retryAfter=0 on allow"
      else none
]

abbrev pub check_denied : Reply → Option String
check_denied denied = elim denied.err [
  | some e ↦ some "unexpected error on second allow"
  | none ↦
      if denied.result.allowed
      then some "expected second request to be denied"
      else if not (eqb_ℤ denied.result.remaining (pos 0))
      then some "expected remaining=0 on deny"
      else if ltb_ℤ denied.result.retry_after (pos 0)
      then some "expected non-negative retryAfter on deny"
      else if eqb_ℤ denied.result.retry_after (pos 0)
      then some "expected positive retryAfter on deny"
      else none
]

abbrev pub check_outcome : Reply → Option String
check_outcome out = elim out.err [
  | some e ↦ some "unexpected error during concurrent allow"
  | none ↦
      if ltb_ℤ out.result.remaining (pos 0)
      then some "expected non-negative remaining"
      else if ltb_ℤ out.result.retry_after (pos 0)
      then some "expected non-negative retryAfter"
      else none
]

unfoldable pub check_outcomes : List Reply → Option String
check_outcomes [] = none
check_outcomes (out ∷ rest) =
    let others = check_outcomes rest in elim (check_outcome out) [ some m ↦ some m | none ↦ others ]

abbrev pub check_error : String → Reply → Option String
check_error message r = elim r.err [ none ↦ some message | some e ↦ none ]

-- What each call has read, and for the two concurrent tests which worker's call takes effect when so
-- many others are still to come.
pub record Schedule (T : Type 0) : Type 0 where
  pub first : T
  pub second : T
  pub same_order : ℕ → ℕ
  pub same_read : ℕ → T
  pub multiple_order : ℕ → ℕ
  pub multiple_read : ℕ → T
  pub empty_read : T
  pub blank_read : T

-- The workers of `n` calls in the order in which these take effect: after that of `order i`, `i` are still
-- to come.
unfoldable pub turns : ℕ → (ℕ → ℕ) → List ℕ
turns zero order = []
turns (suc n) order = order n ∷ turns n order

module _ {S T : Type 0} (allow : T → Key → S → Option (Reply × S)) where
  unfoldable pub run_result_boundary_test : Schedule T → S → Option (Option String × S)
  run_result_boundary_test p s = elim (allow p.first user_1 s) [
    | none ↦ none
    | some (allowed, t) ↦ elim (check_allowed allowed) [
      | some m ↦ some (some m, t)
      | none ↦ elim (allow p.second user_1 t) [
        | none ↦ none
        | some (denied, u) ↦ some (check_denied denied, u)
      ]
    ]
  ]

  -- The workers' calls, and their outcomes.
  unfoldable pub call_all : (ℕ → T) → (ℕ → Key) → List ℕ → S → Option (List Reply × S)
  call_all read key [] s = some ([], s)
  call_all read key (i ∷ is) s = elim (allow (read i) (key i) s) [
    | none ↦ none
    | some (out, t) ↦ elim (call_all read key is t) [
      | none ↦ none
      | some (outs, u) ↦ some (out ∷ outs, u)
    ]
  ]

  abbrev pub run_workers : (ℕ → T) → (ℕ → Key) → List ℕ → S → Option (Option String × S)
  run_workers read key order s = elim (call_all read key order s) [
    | none ↦ none
    | some (outs, t) ↦ some (check_outcomes outs, t)
  ]

  unfoldable pub run_concurrent_same_key_test : Schedule T → S → Option (Option String × S)
  unfolding call_all check_outcomes turns
  run_concurrent_same_key_test p =
      run_workers p.same_read (λ i. user_shared) (turns workers p.same_order)

  unfoldable pub run_concurrent_multiple_keys_test : Schedule T → S → Option (Option String × S)
  unfolding call_all check_outcomes turns
  run_concurrent_multiple_keys_test p =
      run_workers p.multiple_read user_of (turns workers p.multiple_order)

  unfoldable pub run_blank_key_error_test : Schedule T → S → Option (Option String × S)
  run_blank_key_error_test p s = elim (allow p.empty_read [] s) [
    | none ↦ none
    | some (r, t) ↦ elim (check_error "expected error for empty key" r) [
      | some m ↦ some (some m, t)
      | none ↦ elim (allow p.blank_read (32 ∷ 32 ∷ 32 ∷ []) t) [
        | none ↦ none
        | some (q, u) ↦ some (check_error "expected error for blank key" q, u)
      ]
    ]
  ]

  -- A failed test ends the run.
  abbrev pub and_then :
      Option (Option String × S) → (S → Option (Option String × S)) → Option (Option String × S)
  and_then none next = none
  and_then (some (some m, s)) next = some (some m, s)
  and_then (some (none, s)) next = next s

  unfoldable pub run_limiter_behavior_tests : Schedule T → S → Option (Option String × S)
  unfolding run_result_boundary_test run_concurrent_same_key_test run_concurrent_multiple_keys_test
      run_blank_key_error_test
  run_limiter_behavior_tests p s =
      and_then
        (and_then (and_then (run_result_boundary_test p s) (run_concurrent_same_key_test p))
          (run_concurrent_multiple_keys_test p))
        (run_blank_key_error_test p)
