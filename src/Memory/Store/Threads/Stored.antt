-- ===== src/Memory/Store/Threads/Stored.antt =====
-- memory/sharded_store.go with goroutines: what `create` and `fn` keep of a key's state.
use kaka.Prelude.{
  ℕ, ◌≡◌, refl, sym, ap, ◌∙◌, inl, inr, Option, some, List, length, get_elem?, key_eq, key_eq_iff,
  Bool-cases, arith,
}
use mathlib.Core.Path.{subst}
use mathlib.Core.Option.{some-injective}
use kaka.Core.{Key}
use kaka.Clock.{Time}
use kaka.Memory.Options.{Options}
use kaka.Memory.Options.Checks.{Accepted}
use kaka.Memory.Shard.{KeyEntry}
use kaka.Memory.Shard.Cleaning.{Ranges}
use kaka.Memory.Store.Promise.Fresh.{new_store-Valid}
use kaka.Memory.Store.Threads.{Request, serving, System, ask, turn, drain, launch}
use kaka.Memory.Store.Threads.Inv.{seen}
use kaka.Memory.Store.Threads.Safety.{Steps, start, after, serves_alone}
use kaka.Memory.Store.Threads.Atomic.{Atomic, drops, makes, updates, turn-Atomic}

module _ {A R : Type 0} (visit : Time → List (Key × KeyEntry A) → List (Key × KeyEntry A))
    (o : Options) (create : Time → A) (fn : A → Time → A × R)
    (ranges : (now : Time) → Ranges (visit now)) (accepted : Accepted o) (P : A → Type 0)
    (made : (now : Time) → P (create now))
    (kept : (v : A) (now : Time) → P v → P (fn v now).0) where
  -- Every state of the map is as promised.
  abbrev All : (Key → Option A) → Type 0
  All view = (k : Key) (v : A) → view k ≡ some v → P v

  Atomic-All :
      {before after : Key → Option A} {c : Option (Key × Time)}
      → Atomic visit o create fn before after c
      → All before
      → All after
  Atomic-All (drops f) all k v e = elim (f k) [
    | inl gone ↦ absurd (ground (arith, gone, e))
    | inr same ↦ all k v (sym same ∙ e)
  ]
  Atomic-All {before} {after} (makes key now gone new rest) all k v e =
      elim (Bool-cases (key_eq key k)) [
        | inl own ↦
            let there : after key ≡ some v = ap after ((key_eq_iff key k).0 own) ∙ e in
            subst P (some-injective _ _ (sym new ∙ there)) (made now)
        | inr other ↦ all k v (sym (rest k other) ∙ e)
      ]
  Atomic-All {before} {after} (updates key now u old new rest) all k v e =
      elim (Bool-cases (key_eq key k)) [
        | inl own ↦
            let there : after key ≡ some v = ap after ((key_eq_iff key k).0 own) ∙ e in
            subst P (some-injective _ _ (sym new ∙ there)) (kept u now (all key u old))
        | inr other ↦ all k v (sym (rest k other) ∙ e)
      ]

  abbrev pub view : System visit o create fn → Key → Option A
  view s = seen o (length s.mem.shards) s.mem.shards

  pub Steps-All :
      (k : ℕ) {s : System visit o create fn}
      → Steps visit o create fn (launch visit o create fn k) s
      → All (view s)
  Steps-All k start = λ i v e. absurd (ground (arith, e, (new_store-Valid A o accepted).1 i))
  Steps-All k (after steps (ask t key now here)) = Steps-All k steps
  Steps-All k (after {u} steps (turn t {p} {p'} {m'} here moves)) =
      Atomic-All (turn-Atomic visit o create fn ranges accepted k u t p p' m' steps here moves)
        (Steps-All k steps)
  Steps-All k (after steps drain) = Steps-All k steps

  -- What every new state has and every call of `fn` keeps, holds of each state that `fn` gets, whatever
  -- goroutines did to a new store.
  pub serving-All :
      (k : ℕ) (s : System visit o create fn) (t : ℕ) (v : A) (r : Request)
      → Steps visit o create fn (launch visit o create fn k) s
      → get_elem? s.threads t ≡ some (serving v r)
      → P v
  serving-All k s t v r steps here =
      let (one, stored) =
        serves_alone visit o create fn ranges accepted k s t t v v r r steps here here refl in
      Steps-All k steps r.key v stored
