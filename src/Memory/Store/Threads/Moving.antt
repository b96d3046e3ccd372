-- ===== src/Memory/Store/Threads/Moving.antt =====
-- memory/sharded_store.go: no turn of a goroutine panics, and each has an effect that keeps the
-- invariant.
use kaka.Prelude.{
  ℕ, zero, suc, ◌^◌, ◌≡◌, ◌<◌, refl, inl, pos, ◌-ℤ◌, -ℤ_parts, Bool, true, false, List, length,
  if◌then◌else◌, arith,
}
use kaka.Core.{Key}
use kaka.Clock.{Time}
use kaka.Memory.Options.{Options}
use kaka.Memory.Hash.Range.{shard_for-mod}
use kaka.Memory.Shard.{KeyEntry}
use kaka.Memory.Shard.Cleaning.{Ranges}
use kaka.Memory.Store.Threads.{
  Request, Pc, idle, waiting, looking, serving, leaving, reserving, trying, claiming, sweeping,
  checking, sweep_at, sweep_in, sweep_out, outside, evict_at, evict_in, evict_out, relocking,
  paying, counting, Shared, free_lock, move,
}
use kaka.Memory.Store.Threads.Owing.{holds, sweeps, owed}
use kaka.Memory.Store.Threads.Inv.{Placed, IsFresh, Locks, Sweeps, Effect}
use kaka.Memory.Store.Threads.Effects.{Known, Good, leaves_shards, moves_only, acquires, releases}
use kaka.Memory.Store.Threads.Looks.{look-Good}
use kaka.Memory.Store.Threads.Claims.{claim-Good, serve-Good}
use kaka.Memory.Store.Threads.Reserving.{reserve-Good, swap-Good}
use kaka.Memory.Store.Threads.Turns.{
  sweep-Good, check-Good, sweep_at-Good, sweep_in-Good, outside-Good, evict_at-Good, evict_in-Good,
}

module _ {A R : Type 0} (visit : Time → List (Key × KeyEntry A) → List (Key × KeyEntry A))
    (o : Options) (create : Time → A) (fn : A → Time → A × R)
    (ranges : (now : Time) → Ranges (visit now)) (n t : ℕ) (m : Shared A)
    (known : Known o n t m) where
  module _ (b : ℕ) (power : n ≡ 2 ^ b) where
    pub home_inside : (r : Request) → Placed n r → r.home < length m.shards
    home_inside r placed = omega (arith, placed, known.as_many, (shard_for-mod n b r.key power).1)

    evict_out-Good :
        (done : Bool) (j : ℕ) (r : Request)
        → Placed n r
        → Effect o n t m
            (evict_out j done r)
            (free_lock j m)
            (if done then relocking r else evict_at (suc j) r)
    unfolding holds sweeps owed
    evict_out-Good true j r placed =
        releases o n t m known (evict_out j true r) (relocking r) j refl placed refl refl refl
    evict_out-Good false j r placed =
        releases o n t m known (evict_out j false r) (evict_at (suc j) r) j refl placed refl refl
          refl

    pays :
        (k : ℕ) (p : Pc A)
        → IsFresh o n m.shards p
        → Good o n t m (paying k p) (move visit o create fn t m (paying k p))
    unfolding move holds sweeps owed
    pays zero p fresh = moves_only o n t m known (paying zero p) p (omega arith) fresh refl refl
    pays (suc k) p fresh =
        leaves_shards o n t m known (paying (suc k) p) (paying k p)
          (record m { live = m.live -ℤ pos 1 }) refl (omega (arith, -ℤ_parts m.live (pos 1)))
          (inl (omega (arith, -ℤ_parts m.live (pos 1)))) fresh (Locks.keeps (λ i. refl) refl)
          (Sweeps.keeps refl refl)

    pub move-Good :
        (p : Pc A) → IsFresh o n m.shards p → Good o n t m p (move visit o create fn t m p)
    unfolding move holds sweeps owed
    move-Good idle f = tt
    move-Good (waiting r) f =
        acquires o n t m known (waiting r) (looking r) r.home refl f refl refl refl
    move-Good (looking r) f = look-Good visit o create fn ranges n t m known r f (home_inside r f)
    move-Good (serving v r) f =
        serve-Good visit o create fn n t m known r (f.0) (home_inside r f.0) v (f.1)
    move-Good (leaving r) f = releases o n t m known (leaving r) idle r.home refl tt refl refl refl
    move-Good (reserving swept r) f =
        reserve-Good visit o create fn ranges n t m known r f (home_inside r f) swept
    move-Good (trying swept k r) f =
        swap-Good visit o create fn ranges n t m known r (f.0) swept k (f.1)
    move-Good (claiming r) f = claim-Good visit o create fn n t m known r f (home_inside r f)
    move-Good (sweeping r) f = sweep-Good visit o create fn ranges n t m known r f
    move-Good (checking r) f = check-Good visit o create fn ranges n t m known r f
    move-Good (sweep_at j r) f = sweep_at-Good visit o create fn ranges n t m known r f j
    move-Good (sweep_in j r) f =
        sweep_in-Good visit o create fn ranges n t m known r (f.0) j
          (omega (arith, f.1, known.as_many))
    move-Good (sweep_out j r) f =
        releases o n t m known (sweep_out j r) (sweep_at (suc j) r) j refl f refl refl refl
    move-Good (outside r) f = outside-Good visit o create fn ranges n t m known r f
    move-Good (evict_at j r) f = evict_at-Good visit o create fn ranges n t m known r f j
    move-Good (evict_in j r) f =
        evict_in-Good visit o create fn ranges n t m known r (f.0) j
          (omega (arith, f.1, known.as_many))
    move-Good (evict_out j done r) f = evict_out-Good done j r f
    move-Good (relocking r) f =
        acquires o n t m known (relocking r) (reserving true r) r.home refl f refl refl refl
    move-Good (paying k p) f = pays k p f
    move-Good (counting p) f =
        leaves_shards o n t m known (counting p) p (record m { evicts = suc m.evicts }) refl
          (omega arith) (inl (omega arith)) f (Locks.keeps (λ i. refl) refl)
          (Sweeps.keeps refl refl)
