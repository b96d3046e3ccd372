-- ===== src/Memory/SlidingWindow/Report.antt =====
-- memory/: what `Allow` reports to the sink after a decision.
use kaka.Prelude.{ℕ, suc, ◌≡◌, ℤ, Bool, true, false, none, some, List, [], ◌∷◌, length}
use kaka.Core.{Reply, Event, on_evict, on_error, set_keys, allowed_events, rejected_events}
use kaka.Memory.Store.{Store}

abbrev pub evict_events : List Event → ℕ
evict_events [] = 0
evict_events (on_evict t ∷ es) = suc (evict_events es)
evict_events (e ∷ es) = evict_events es

abbrev pub error_events : List Event → ℕ
error_events [] = 0
error_events (on_error t e ∷ es) = suc (error_events es)
error_events (e ∷ es) = error_events es

-- The numbers of keys that are reported.
abbrev pub gauges : List Event → List ℤ
gauges [] = []
gauges (set_keys t n ∷ es) = n ∷ gauges es
gauges (e ∷ es) = gauges es

abbrev pub fails_with_error : Reply → Bool
fails_with_error r = elim r.err [ none ↦ false | some e ↦ true ]

-- How many calls on the sink there are, and of which kind.
pub record Told (es : List Event) (allowed rejected errors : ℕ) (keys : List ℤ) (evicts all : ℕ)
    : Type 0 where
  pub allowed_told : allowed_events es ≡ allowed
  pub rejected_told : rejected_events es ≡ rejected
  pub errors_told : error_events es ≡ errors
  pub keys_told : gauges es ≡ keys
  pub evicts_told : evict_events es ≡ evicts
  pub nothing_else : length es ≡ all
