-- ===== src/Memory/Store/Threads/Turns.antt =====
-- memory/sharded_store.go, `sweepExpired` and `evictAnyOther`: the effects of their turns.
use kaka.Prelude.{
  ℕ, suc, ◌≡◌, ◌<◌, refl, sym, inl, inr, ltb_ℤ, leb_ℤ, true, false, ◌&&◌, none, some, List, length,
  ◌==◌, ltb, Bool-cases, Option-cases, arith,
}
use mathlib.Core.Path.{subst}
use kaka.Core.{Key}
use kaka.Clock.{Time, time_sub}
use kaka.Memory.Options.{Options}
use kaka.Memory.Shard.{KeyEntry, cleanup_off, evict_from}
use kaka.Memory.Shard.Cleaning.{Ranges}
use kaka.Memory.Store.{is_lru, cleanup}
use kaka.Memory.Store.Thins.{cleanup-Shrinks}
use kaka.Memory.Store.Reserve.{at-IsSound}
use kaka.Memory.Store.Threads.{
  Request, Pc, sweeping, checking, sweep_at, sweep_in, sweep_out, outside, evict_at, evict_in,
  evict_out, relocking, Shared, moved, local, sweep_turn, check_turn, sweep_at_turn, sweep_in_turn,
  outside_turn, evict_at_turn, evict_in_turn,
}
use kaka.Memory.Store.Threads.Owing.{holds, sweeps, owed, subject}
use kaka.Memory.Store.Threads.Inv.{Placed, Locks, Sweeps, Effect}
use kaka.Memory.Store.Threads.Effects.{Known, Good, leaves_shards, moves_only, acquires}
use kaka.Memory.Store.Threads.Reserving.{thins, evicts-Good}

module _ {A R : Type 0} (visit : Time → List (Key × KeyEntry A) → List (Key × KeyEntry A))
    (o : Options) (create : Time → A) (fn : A → Time → A × R)
    (ranges : (now : Time) → Ranges (visit now)) (n t : ℕ) (m : Shared A)
    (known : Known o n t m) where
  module _ (r : Request) (placed : Placed n r) where
    -- `sweepMu` is released.
    ends_sweep :
        (p : Pc A)
        → holds p ≡ none
        → owed p ≡ 0
        → sweeps p ≡ true
        → Effect o n t m p (record m { sweeper = none }) (outside r)
    unfolding holds sweeps owed
    ends_sweep p h e s =
        leaves_shards o n t m known p (outside r) (record m { sweeper = none }) refl
          (omega (arith, e)) (inl (omega arith)) placed (Locks.keeps (λ k. refl) (sym h))
          (Sweeps.frees refl s refl)

    pub sweep-Good : Good o n t m (sweeping r) (sweep_turn visit o create fn t m r)
    unfolding sweep_turn holds sweeps owed
    sweep-Good = elim (Bool-cases (cleanup_off o)) [
      | inl off ↦
          rw (off, sweep_turn)
            (moves_only o n t m known (sweeping r) (outside r) refl placed refl refl)
      | inr on ↦ elim (Option-cases m.sweeper) [
        | inr (u, taken) ↦ rw (on, taken, sweep_turn) tt
        | inl free ↦
            let taken : moved (record m { sweeper = some t }) (checking r)
                ≡ sweep_turn visit o create fn t m r =
              rw (on, free, sweep_turn) refl in
            subst (Good o n t m (sweeping r)) taken (
              leaves_shards o n t m known (sweeping r) (checking r) (record m { sweeper = some t })
                refl (omega arith) (inl (omega arith)) placed (Locks.keeps (λ k. refl) refl)
                (Sweeps.takes refl free refl))
      ]
    ]

    pub check-Good : Good o n t m (checking r) (check_turn visit o create fn m r)
    unfolding check_turn holds sweeps owed
    check-Good = elim (Bool-cases (ltb_ℤ (time_sub r.now m.last_sweep) o.cleanup_interval)) [
      | inl early ↦ rw (early, check_turn) (ends_sweep (checking r) refl refl refl)
      | inr due ↦
          rw (due, check_turn)
            (leaves_shards o n t m known (checking r) (sweep_at 0 r)
              (record m { last_sweep = r.now }) refl (omega arith) (inl (omega arith)) placed
              (Locks.keeps (λ k. refl) refl) (Sweeps.keeps refl refl))
    ]

    pub sweep_at-Good :
        (j : ℕ) → Good o n t m (sweep_at j r) (sweep_at_turn visit o create fn t m j r)
    unfolding sweep_at_turn holds sweeps owed
    sweep_at-Good j = elim (Bool-cases (ltb j (length m.shards))) [
      | inl more ↦
          rw (more, sweep_at_turn)
            (acquires o n t m known (sweep_at j r) (sweep_in j r) j refl
              (placed, ground (arith, known.as_many)) refl refl refl)
      | inr done ↦ rw (done, sweep_at_turn) (ends_sweep (sweep_at j r) refl refl refl)
    ]

    pub sweep_in-Good :
        (j : ℕ)
        → j < length m.shards
        → Good o n t m (sweep_in j r) (sweep_in_turn visit o create fn m j r)
    unfolding sweep_in_turn holds sweeps owed subject
    sweep_in-Good j inside =
        thins visit o create fn ranges n t m known (sweep_in j r) (sweep_out j r) j
          (cleanup visit o r.now (local m j)) inside refl refl refl refl refl (λ xs. placed)
          (cleanup-Shrinks visit o r.now (local m j) (at-IsSound m.shards j known.sound inside))

    pub outside-Good : Good o n t m (outside r) (outside_turn visit o create fn m r)
    unfolding outside_turn holds sweeps owed
    outside-Good = elim (Bool-cases (is_lru o && leb_ℤ o.max_keys m.live)) [
      | inl full ↦
          rw (full, outside_turn)
            (moves_only o n t m known (outside r) (evict_at 0 r) refl placed refl refl)
      | inr room ↦
          rw (room, outside_turn)
            (moves_only o n t m known (outside r) (relocking r) refl placed refl refl)
    ]

    pub evict_at-Good :
        (j : ℕ) → Good o n t m (evict_at j r) (evict_at_turn visit o create fn t m j r)
    unfolding evict_at_turn holds sweeps owed
    evict_at-Good j = elim (Bool-cases (ltb j (length m.shards))) [
      | inr done ↦
          rw (done, evict_at_turn)
            (moves_only o n t m known (evict_at j r) (relocking r) refl placed refl refl)
      | inl more ↦ elim (Bool-cases (j == r.home)) [
        | inl own ↦
            rw (more, own, evict_at_turn)
              (moves_only o n t m known (evict_at j r) (evict_at (suc j) r) refl placed refl refl)
        | inr other ↦
            rw (more, other, evict_at_turn)
              (acquires o n t m known (evict_at j r) (evict_in j r) j refl
                (placed, ground (arith, known.as_many)) refl refl refl)
      ]
    ]

    pub evict_in-Good :
        (j : ℕ)
        → j < length m.shards
        → Good o n t m (evict_in j r) (evict_in_turn visit o create fn m j r)
    unfolding evict_in_turn holds sweeps owed subject
    evict_in-Good j inside = elim (Option-cases (evict_from (local m j))) [
      | inr (g, e) ↦
          rw (e, evict_in_turn)
            (evicts-Good visit o create fn ranges n t m known r placed (evict_in j r)
              (evict_out j true r) j inside refl refl refl refl refl (λ xs. placed) g e)
      | inl empty ↦
          rw (empty, evict_in_turn)
            (moves_only o n t m known (evict_in j r) (evict_out j false r) refl placed refl refl)
    ]
