-- ===== src/Memory/Store/Tests.antt =====
-- memory/sharded_store.go: runs of a store of counters, and the theorems at one.
use kaka.Prelude.{
  ℕ, suc, ◌≡◌, refl, ◌⊎◌, inr, ℤ, pos, Bool, Option, some, none, List, [], ◌∷◌, lookup, arith,
  key_eq, insert, key_eq_iff, ◌-ℤ◌, ◌+ℤ◌, delete,
}
use kaka.Core.{Key}
use kaka.Clock.{Time, time_sub}
use kaka.Memory.Options.{Options, default_options, evict_lru}
use kaka.Memory.Options.{validate}
use kaka.Memory.Shard.Cleaning.{Ranges-self}
use kaka.Memory.Store.Promise.{peek, Valid, Keeps, with_state-Promised}
use kaka.Memory.Store.Promise.Again.{Continues, Others, requests, with_state_again}
use kaka.Memory.Shard.{
  Shard, KeyEntry, Element, cleanup_map, cleanup_lru, evict_from, back, find_elem, empty_shard,
}
use kaka.Memory.Shard.Lru.{entry_of}
use kaka.Memory.Shard.Sound.{IsSound, Shrinks}
use kaka.Memory.Shard.Cleanup.{cleanup_map-Shrinks, cleanup_map-kept, cleanup_lru-kept}
use kaka.Memory.Store.{
  Store, held, sweep_expired, reserve_slot, with_state, Verdict, ran, max_keys_reached,
}
use kaka.Memory.Store.Thins.{total, Thins, sweep_expired-Thins}
use kaka.Memory.Store.Reserve.{Exact, Reserved, reserve_slot-Reserved}

abbrev reject_two : Options
reject_two = record default_options {
  max_keys = pos 2;
  key_ttl = pos 10;
  cleanup_interval = pos 1;
  shards = pos 1;
}

abbrev lru_two : Options
lru_two = record reject_two { eviction = evict_lru }

-- The map as it is.
abbrev in_order : Time → List (Key × KeyEntry ℕ) → List (Key × KeyEntry ℕ)
in_order now m = m

abbrev key_a : Key
key_a = 97 ∷ []

abbrev key_b : Key
key_b = 98 ∷ []

-- Key a is older than its time to live at 20, key b is not.
abbrev map_shard : Shard ℕ
map_shard = record {
  items =
      (key_a, record { value = 7; last_seen = pos 1 })
      ∷ (key_b, record { value = 8; last_seen = pos 15 })
      ∷ [];
  order_items = [];
  order = [];
  next_id = 0;
  last_cleanup = pos 0;
}

abbrev elem_a : Element ℕ
elem_a = record { id = 0; entry = record { key = key_a; value = 7; last_seen = pos 1 } }

abbrev elem_b : Element ℕ
elem_b = record { id = 1; entry = record { key = key_b; value = 8; last_seen = pos 15 } }

abbrev lru_shard : Shard ℕ
lru_shard = record {
  items = [];
  order_items = (key_a, 0) ∷ (key_b, 1) ∷ [];
  order = elem_b ∷ elem_a ∷ [];
  next_id = 2;
  last_cleanup = pos 0;
}

abbrev map_store : Store ℕ
map_store = record { shards = map_shard ∷ []; live = pos 2; last_sweep = pos 0; evicts = 0 }

abbrev lru_store : Store ℕ
lru_store = record { shards = lru_shard ∷ []; live = pos 2; last_sweep = pos 0; evicts = 0 }

abbrev empty : Shard ℕ
empty = empty_shard

abbrev two_shards : Store ℕ
two_shards = record {
  shards = empty ∷ lru_shard ∷ [];
  live = pos 2;
  last_sweep = pos 0;
  evicts = 0;
}

map_shard-IsSound : IsSound map_shard
unfolding entry_of lookup key_eq
map_shard-IsSound = record {
  keys = (refl, (refl, tt));
  index = tt;
  elems = tt;
  fresh = tt;
  synced = λ k. refl;
}

lru_shard-IsSound : IsSound lru_shard
unfolding entry_of lookup key_eq find_elem
lru_shard-IsSound = record {
  keys = tt;
  index = (refl, (refl, tt));
  elems = (refl, refl, (refl, refl, tt));
  fresh = omega arith;
  synced = λ k. ground (arith, key_eq_iff key_a k, key_eq_iff key_b k);
}

empty_shard-IsSound : IsSound empty
unfolding entry_of lookup
empty_shard-IsSound = record { keys = tt; index = tt; elems = tt; fresh = tt; synced = λ k. refl }

lru_store-Exact : Exact in_order lru_two (pos 20) 0 lru_store
unfolding total
lru_store-Exact = record {
  sound = (lru_shard-IsSound, tt);
  mode = (refl, tt);
  live = refl;
  in_range = omega arith;
}

abbrev ap_verdict : Option (Store ℕ × Verdict ℕ) → Option (Verdict ℕ × ℤ)
ap_verdict o = elim o [ none ↦ none | some (s, v) ↦ some (v, s.live) ]

-- A third key is refused while both keys are fresh, and let in once key a has expired.
refused_test :
    ap_verdict
      (with_state in_order reject_two (λ now. 0) (pos 10) (λ v now. (suc v, v)) (99 ∷ []) map_store)
    ≡ some (max_keys_reached, pos 2)
unfolding with_state lookup key_eq time_sub ◌-ℤ◌ evict_from back delete ◌+ℤ◌
refused_test = refl

created_test :
    ap_verdict
      (with_state in_order reject_two (λ now. 0) (pos 20) (λ v now. (suc v, v)) (99 ∷ []) map_store)
    ≡ some (ran 0, pos 2)
unfolding with_state lookup key_eq time_sub ◌-ℤ◌ evict_from back delete ◌+ℤ◌
created_test = refl

evicted_test :
    ap_verdict
      (with_state in_order lru_two (λ now. 0) (pos 10) (λ v now. (suc v, v)) (99 ∷ []) lru_store)
    ≡ some (ran 0, pos 2)
unfolding with_state lookup key_eq time_sub ◌-ℤ◌ evict_from back delete ◌+ℤ◌
evicted_test = refl

cleanup_map-Shrinks_example :
    Shrinks (held map_store 0) (cleanup_map in_order reject_two (pos 20) (held map_store 0))
cleanup_map-Shrinks_example =
    cleanup_map-Shrinks in_order reject_two (pos 20) (held map_store 0) map_shard-IsSound

cleanup_map-kept_example :
    lookup key_b (cleanup_map in_order reject_two (pos 20) (held map_store 0)).shard.items
    ≡ some (record { value = 8; last_seen = pos 15 })
unfolding lookup key_eq time_sub ◌-ℤ◌
cleanup_map-kept_example =
    cleanup_map-kept in_order reject_two (pos 20) (held map_store 0) key_b
      (record { value = 8; last_seen = pos 15 }) (refl, (refl, tt)) refl refl

cleanup_lru-kept_example :
    entry_of key_b (cleanup_lru lru_two (pos 20) (held lru_store 0)).shard.order ≡ some elem_b
unfolding entry_of key_eq time_sub ◌-ℤ◌
cleanup_lru-kept_example =
    cleanup_lru-kept in_order lru_two (pos 20) (held lru_store 0) key_b elem_b lru_shard-IsSound
      refl refl

sweep_expired-Thins_example :
    Thins lru_two lru_store.shards
      (pos 2)
      (sweep_expired in_order lru_two (pos 20) lru_store).shards
      (sweep_expired in_order lru_two (pos 20) lru_store).live
sweep_expired-Thins_example =
    sweep_expired-Thins in_order lru_two (pos 20) lru_store (lru_shard-IsSound, tt) (refl, tt)

reserve_slot-Reserved_example :
    (t : Store ℕ) × (granted : Bool) × (reserve_slot in_order lru_two (pos 20) 0 lru_store
      ≡ some (t, granted))
    × Reserved in_order lru_two (pos 20) 0 lru_store t granted
reserve_slot-Reserved_example =
    reserve_slot-Reserved in_order lru_two (pos 20) 0 lru_store lru_store-Exact (inr (omega arith))

default_passes : validate default_options ≡ none
unfolding validate
default_passes = refl

map_store-Valid : Valid reject_two map_store
unfolding total
map_store-Valid = record {
  sound = (map_shard-IsSound, tt);
  mode = (refl, tt);
  live = refl;
  power = (0, refl);
  bounded = inr (omega arith);
}

abbrev count : ℕ → Time → ℕ × ℕ
count v now = (suc v, v)

with_state-Promised_example :
    Keeps in_order reject_two
      (λ now. 0)
      (pos 20)
      count
      key_b
      map_store
      (with_state in_order reject_two (λ now. 0) (pos 20) count key_b map_store)
with_state-Promised_example =
    with_state-Promised in_order reject_two (λ now. 0) (pos 20) count key_b map_store
      map_store-Valid Ranges-self

-- Key a has expired, and key b was counted.
abbrev counted : Store ℕ
counted = record map_store {
  shards =
      record map_shard {
        items = (key_b, record { value = 9; last_seen = pos 20 }) ∷ [];
        last_cleanup = pos 20;
      }
      ∷ [];
  live = pos 1;
}

counted_test :
    with_state in_order reject_two (λ now. 0) (pos 20) count key_b map_store ≡ some (counted, ran 8)
unfolding with_state lookup key_eq time_sub ◌-ℤ◌ ◌+ℤ◌ insert delete
counted_test = refl

-- A request for a third key comes between.
abbrev between : List (Key × Time)
between = (99 ∷ [], pos 25) ∷ []

other_key : Others in_order (λ now. Ranges-self) reject_two (λ now. 0) count key_b between
unfolding key_eq
other_key = (refl, tt)

with_state_again_example :
    (a : ℕ) × ((peek reject_two map_store key_b ≡ some a)
      ⊎ ((peek reject_two map_store key_b ≡ none) × (a ≡ 0)))
    × ((count a (pos 20)).1 ≡ 8)
    × ((u : Store ℕ) × (requests in_order
            (λ now. Ranges-self)
            reject_two
            (λ now. 0)
            count
            key_b
            between
            counted
          ≡ some u)
        × (Continues in_order reject_two (λ now. 0) count key_b u (pos 90) (count a (pos 20)).0
            ⊎ ((peek reject_two u key_b ≡ none) × (¬ (between ≡ [])))))
with_state_again_example =
    with_state_again in_order (λ now. Ranges-self) reject_two (λ now. 0) count key_b map_store
      counted (pos 20) (pos 90) 8 between map_store-Valid counted_test other_key
