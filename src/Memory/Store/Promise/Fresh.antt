-- ===== src/Memory/Store/Promise/Fresh.antt =====
-- memory/sharded_store.go, `newShardedStoreWithShards`: a store that was just made.
use kaka.Prelude.{
  ℕ, zero, suc, ◌≡◌, refl, sym, ap, ◌∙◌, inr, pos, pos_part, none, List, length, replicate, lookup,
  arith,
}
use kaka.Core.{Key}
use kaka.Memory.Options.{Options}
use kaka.Memory.Options.Checks.{Accepted}
use kaka.Memory.Hash.{shard_for}
use kaka.Memory.Shard.{Shard, empty_shard}
use kaka.Memory.Shard.Lru.{entry_of}
use kaka.Memory.Shard.Sound.{IsSound}
use kaka.Memory.Store.{new_store}
use kaka.Memory.Store.Thins.{AllSound, AllInMode, total, at}
use kaka.Memory.Store.Access.{value_at}
use kaka.Memory.Store.Promise.{peek, Valid}

module _ (A : Type 0) where
  empty_shard-IsSound : IsSound {A = A} empty_shard
  unfolding entry_of lookup
  empty_shard-IsSound = record { keys = tt; index = tt; elems = tt; fresh = tt; synced = λ k. refl }

  abbrev shards : ℕ → List (Shard A)
  shards n = replicate n empty_shard

  shards-AllSound : (n : ℕ) → AllSound (shards n)
  shards-AllSound zero = tt
  shards-AllSound (suc n) = (empty_shard-IsSound, shards-AllSound n)

  shards-AllInMode : (o : Options) (n : ℕ) → AllInMode o (shards n)
  shards-AllInMode o zero = tt
  shards-AllInMode o (suc n) = (ground arith, shards-AllInMode o n)

  total-shards : (n : ℕ) → total (shards n) ≡ 0
  unfolding total
  total-shards zero = refl
  total-shards (suc n) = omega (arith, total-shards n)

  pub length-shards : (n : ℕ) → length (shards n) ≡ n
  length-shards zero = refl
  length-shards (suc n) = ap suc (length-shards n)

  at-shards : (n i : ℕ) → at (shards n) i ≡ empty_shard
  at-shards zero i = refl
  at-shards (suc n) zero = refl
  at-shards (suc n) (suc i) = at-shards n i

  no_value : (o : Options) (k : Key) → value_at {A = A} o k empty_shard ≡ none
  unfolding entry_of lookup
  no_value o k = ground arith

-- With options that a constructor accepts, a new store meets the store's invariant, and has no key.
pub new_store-Valid :
    (A : Type 0) (o : Options)
    → Accepted o
    → Valid o (new_store {A = A} o) × ((k : Key) → peek o (new_store {A = A} o) k ≡ none)
new_store-Valid A o a =
    let n = pos_part o.shards in
    let (k, le, e) = a.power in
    (
      record {
        sound = shards-AllSound A n;
        mode = shards-AllInMode A o n;
        live = ap pos (sym (total-shards A n));
        power = (k, length-shards A n ∙ e);
        bounded = inr (ground (arith, a.keys));
      },
      λ j. ap (value_at o j) (at-shards A n (shard_for (length (shards A n)) j)) ∙ no_value A o j,
    )
