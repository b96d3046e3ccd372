-- ===== src/Memory/Store/Threads/Owing.antt =====
-- memory/sharded_store.go: the locks that a goroutine holds, and what it owes the counter of live keys.
use kaka.Prelude.{
  ℕ, zero, suc, ◌+◌, ◌≡◌, refl, ◌⊎◌, inl, inr, Bool, true, false, Option, none, some, List, [], ◌∷◌,
  get_elem?, set, ◌==◌, arith,
}
use kaka.Core.{Key}
use kaka.Memory.Store.Threads.{
  Pc, idle, waiting, looking, serving, leaving, reserving, trying, claiming, sweeping, checking,
  sweep_at, sweep_in, sweep_out, outside, evict_at, evict_in, evict_out, relocking, paying,
  counting,
}

module _ {A : Type 0} where
  -- The shard whose lock the goroutine holds: never more than one.
  unfoldable pub holds : Pc A → Option ℕ
  holds idle = none
  holds (waiting r) = none
  holds (looking r) = some r.home
  holds (serving v r) = some r.home
  holds (leaving r) = some r.home
  holds (reserving swept r) = some r.home
  holds (trying swept n r) = some r.home
  holds (claiming r) = some r.home
  holds (sweeping r) = none
  holds (checking r) = none
  holds (sweep_at j r) = none
  holds (sweep_in j r) = some j
  holds (sweep_out j r) = some j
  holds (outside r) = none
  holds (evict_at j r) = none
  holds (evict_in j r) = some j
  holds (evict_out j done r) = some j
  holds (relocking r) = none
  holds (paying k p) = holds p
  holds (counting p) = holds p

  -- Whether it holds `sweepMu`.
  unfoldable pub sweeps : Pc A → Bool
  sweeps (checking r) = true
  sweeps (sweep_at j r) = true
  sweeps (sweep_in j r) = true
  sweeps (sweep_out j r) = true
  sweeps (paying k p) = sweeps p
  sweeps (counting p) = sweeps p
  sweeps p = false

  -- The key whose state its turn makes or updates.
  unfoldable pub subject : Pc A → Option Key
  subject (serving v r) = some r.key
  subject (claiming r) = some r.key
  subject p = none

  -- The slots that it has counted and not filled, and the removals that it has not counted.
  unfoldable pub owed : Pc A → ℕ
  owed (claiming r) = 1
  owed (paying k p) = k + owed p
  owed (counting p) = owed p
  owed p = 0

  unfoldable pub owing : List (Pc A) → ℕ
  owing [] = 0
  owing (p ∷ ps) = owed p + owing ps

  pub owing-set :
      (ps : List (Pc A)) (t : ℕ) (p q : Pc A)
      → get_elem? ps t ≡ some p
      → owing (set ps t q) + owed p ≡ owing ps + owed q
  unfolding owing
  owing-set [] t p q e = cc
  owing-set (x ∷ xs) zero p q e = ground (arith, e)
  owing-set (x ∷ xs) (suc t) p q e = omega (arith, owing-set xs t p q e)

module _ {ℓ} {B : Type ℓ} where
  -- After a write, a place holds what was written or what it held.
  pub get_elem?-set_cases :
      (xs : List B) (t u : ℕ) (p q : B)
      → get_elem? (set xs t p) u ≡ some q
      → ((u == t ≡ true) × (p ≡ q)) ⊎ ((u == t ≡ false) × (get_elem? xs u ≡ some q))
  get_elem?-set_cases [] t u p q e = cc
  get_elem?-set_cases (x ∷ xs) zero zero p q e = inl (refl, ground (arith, e))
  get_elem?-set_cases (x ∷ xs) zero (suc u) p q e = inr (ground arith, e)
  get_elem?-set_cases (x ∷ xs) (suc t) zero p q e = inr (ground arith, e)
  get_elem?-set_cases (x ∷ xs) (suc t) (suc u) p q e =
      ground (arith, get_elem?-set_cases xs t u p q e)

  pub get_elem?-set_self :
      (xs : List B) (t : ℕ) (p q : B) → get_elem? xs t ≡ some p → get_elem? (set xs t q) t ≡ some q
  get_elem?-set_self [] t p q e = cc
  get_elem?-set_self (x ∷ xs) zero p q e = refl
  get_elem?-set_self (x ∷ xs) (suc t) p q e = get_elem?-set_self xs t p q e

  pub get_elem?-set_ne :
      (xs : List B) (t u : ℕ) (q : B) → u == t ≡ false → get_elem? (set xs t q) u ≡ get_elem? xs u
  get_elem?-set_ne [] t u q e = refl
  get_elem?-set_ne (x ∷ xs) zero zero q e = cc
  get_elem?-set_ne (x ∷ xs) zero (suc u) q e = refl
  get_elem?-set_ne (x ∷ xs) (suc t) zero q e = refl
  get_elem?-set_ne (x ∷ xs) (suc t) (suc u) q e = get_elem?-set_ne xs t u q (ground (arith, e))
