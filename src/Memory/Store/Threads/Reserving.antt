-- ===== src/Memory/Store/Threads/Reserving.antt =====
-- memory/sharded_store.go, `reserveSlot`: the effects of its turns, and of a removal of keys.
use kaka.Prelude.{
  ℕ, ◌≡◌, ◌<◌, refl, sym, ◌∙◌, inl, inr, ℤ, pos, ◌+ℤ◌, +ℤ_parts, ltb_ℤ, leb_ℤ, eqb_ℤ, ◌<ℤ◌, Bool,
  true, false, none, some, List, [], length, set, if◌then◌else◌, Bool-cases, Option-cases, arith,
}
use mathlib.Core.Path.{subst}
use kaka.Core.{Key}
use kaka.Clock.{Time}
use kaka.Memory.Options.{Options}
use kaka.Memory.Shard.{Shard, Held, KeyEntry, evict_from}
use kaka.Memory.Shard.Sound.{Shrinks}
use kaka.Memory.Shard.Cleaning.{Ranges}
use kaka.Memory.Shard.Cleanup.{evict_from-Shrinks}
use kaka.Memory.Store.{is_lru}
use kaka.Memory.Store.Moves.{Alters-Shrinks}
use kaka.Memory.Store.Access.{at-unused}
use kaka.Memory.Store.Reserve.{at-IsSound}
use kaka.Memory.Store.Threads.{
  Request, Pc, leaving, reserving, trying, claiming, sweeping, outside, paying, counting, Shared,
  moved, free_lock, local, put, debt, reserve_turn, swap_turn,
}
use kaka.Memory.Store.Threads.Owing.{holds, sweeps, owed, subject}
use kaka.Memory.Store.Threads.Inv.{Placed, IsFresh, Locks, Sweeps, Effect}
use kaka.Memory.Store.Threads.Effects.{Known, Good, leaves_shards, moves_only, releases, writes}

module _ {A R : Type 0} (visit : Time → List (Key × KeyEntry A) → List (Key × KeyEntry A))
    (o : Options) (create : Time → A) (fn : A → Time → A × R)
    (ranges : (now : Time) → Ranges (visit now)) (n t : ℕ) (m : Shared A)
    (known : Known o n t m) where
  -- Keys are removed from a shard that the goroutine holds.
  pub thins :
      (p q : Pc A) (j : ℕ) (g : Held A)
      → j < length m.shards
      → holds p ≡ some j
      → subject p ≡ none
      → holds q ≡ some j
      → owed q ≡ owed p
      → sweeps q ≡ sweeps p
      → ((xs : List (Shard A)) → IsFresh o n xs q)
      → Shrinks (local m j) g
      → Effect o n t m p (put m j g) (paying (debt g) q)
  unfolding holds sweeps owed
  thins p q j g inside h quiet h' e s fresh a =
      let empty = at-unused o m.shards j known.mode inside in
      writes o n t m known p (paying (debt g) q) [] j 0 g inside h (Alters-Shrinks [] a)
        (inr (quiet, ground (arith, a.items [], a.order [])))
        (ground (arith, empty, a.fewer_items, a.fewer_elems)) (omega (arith, e))
        (fresh (set m.shards j g.shard)) (h' ∙ sym h) s

  module _ (r : Request) (placed : Placed n r) where
    pub evicts-Good :
        (p q : Pc A) (j : ℕ)
        → j < length m.shards
        → holds p ≡ some j
        → subject p ≡ none
        → holds q ≡ some j
        → owed q ≡ owed p
        → sweeps q ≡ sweeps p
        → ((xs : List (Shard A)) → IsFresh o n xs q)
        → (g : Held A) → evict_from (local m j) ≡ some g
        → Effect o n t m p (put m j g) (paying (debt g) (counting q))
    unfolding holds sweeps owed
    evicts-Good p q j inside h quiet h' e s fresh g found =
        elim (evict_from-Shrinks (local m j) (at-IsSound m.shards j known.sound inside)) [
          | inl (nothing, empty) ↦ absurd (ground (arith, nothing, found))
          | inr (g', e', a, b, c, f) ↦
              thins p (counting q) j g inside h quiet h' e s fresh
                (subst (Shrinks (local m j)) (ground (arith, e', found)) a)
        ]

    module _ (inside : r.home < length m.shards) where
      gives_up :
          (swept : Bool)
          → Effect o n t m
              (reserving swept r)
              (free_lock r.home m)
              (if swept then outside r else sweeping r)
      unfolding holds sweeps owed
      gives_up true =
          releases o n t m known (reserving true r) (outside r) r.home refl placed refl refl refl
      gives_up false =
          releases o n t m known (reserving false r) (sweeping r) r.home refl placed refl refl refl

      refuses :
          (swept : Bool)
          → Good o n t m
              (reserving swept r)
              (if swept then moved m (leaving r) else moved (free_lock r.home m) (sweeping r))
      unfolding holds sweeps owed
      refuses true = moves_only o n t m known (reserving true r) (leaving r) refl placed refl refl
      refuses false = gives_up false

      -- The store is full, in EvictLRU mode.
      evict_locally-Good :
          (swept : Bool)
          → leb_ℤ o.max_keys (pos 0) ≡ false
          → ltb_ℤ m.live o.max_keys ≡ false
          → is_lru o ≡ true
          → Good o n t m (reserving swept r) (reserve_turn visit o create fn m swept r)
      unfolding reserve_turn holds sweeps owed subject
      evict_locally-Good swept limited full lru =
          elim (Option-cases (evict_from (local m r.home))) [
            | inr (g, e) ↦
                rw (limited, full, lru, e, reserve_turn)
                  (evicts-Good (reserving swept r) (reserving swept r) r.home inside refl refl refl
                    refl refl (λ xs. placed) g e)
            | inl empty ↦ rw (limited, full, lru, empty, reserve_turn) (gives_up swept)
          ]

      pub reserve-Good :
          (swept : Bool)
          → Good o n t m (reserving swept r) (reserve_turn visit o create fn m swept r)
      unfolding reserve_turn holds sweeps owed subject
      reserve-Good swept = elim (Bool-cases (leb_ℤ o.max_keys (pos 0))) [
        | inl unlimited ↦
            rw (unlimited, reserve_turn)
              (leaves_shards o n t m known (reserving swept r) (claiming r)
                (record m { live = m.live +ℤ pos 1 }) refl (omega (arith, +ℤ_parts m.live (pos 1)))
                (inr (inl (ground arith))) placed (Locks.keeps (λ k. refl) refl)
                (Sweeps.keeps refl refl))
        | inr limited ↦ elim (Bool-cases (ltb_ℤ m.live o.max_keys)) [
          | inl room ↦
              rw (limited, room, reserve_turn)
                (moves_only o n t m known (reserving swept r) (trying swept m.live r) refl
                  (placed, ground arith) refl refl)
          | inr full ↦ elim (Bool-cases (is_lru o)) [
            | inl lru ↦ evict_locally-Good swept limited full lru
            | inr reject ↦ rw (limited, full, reject, reserve_turn) (refuses swept)
          ]
        ]
      ]

    pub swap-Good :
        (swept : Bool) (k : ℤ)
        → k <ℤ o.max_keys
        → Good o n t m (trying swept k r) (swap_turn visit o create fn m swept k r)
    unfolding swap_turn holds sweeps owed
    swap-Good swept k below = elim (Bool-cases (eqb_ℤ m.live k)) [
      | inl same ↦
          rw (same, swap_turn)
            (leaves_shards o n t m known (trying swept k r) (claiming r)
              (record m { live = k +ℤ pos 1 }) refl (ground (arith, same, +ℤ_parts k (pos 1)))
              (inr (inr (omega (arith, below, +ℤ_parts k (pos 1))))) placed
              (Locks.keeps (λ i. refl) refl) (Sweeps.keeps refl refl))
      | inr other ↦
          rw (other, swap_turn)
            (moves_only o n t m known (trying swept k r) (reserving swept r) refl placed refl refl)
    ]
