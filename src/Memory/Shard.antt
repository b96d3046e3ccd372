-- ===== src/Memory/Shard.antt =====
-- memory/sharded_store.go, one shard: its storage, and the operations that run under its lock. The
-- lock itself is not a field: an operation is called by the goroutine that holds it.
-- In EvictLRU mode a `*list.Element` is known by its `id`, which `PushFront` makes anew; `order` is
-- the linked list, newest first, and the nil list of EvictReject mode is the empty one.
pub mod Sound
pub mod Lru
pub mod Cleaning
pub mod Cleanup
pub mod Edits
pub mod Writes
use kaka.Prelude.{
  ℕ, suc, ◌+◌, ℤ, pos, ◌-ℤ◌, ltb_ℤ, leb_ℤ, Bool, true, false, ◌||◌, Option, none, some, List, [],
  ◌∷◌, length, take, ◌==◌, key_eq, lookup, insert, delete, if◌then◌else◌,
}
use kaka.Core.{Key}
use kaka.Clock.{Time, Duration, time_sub, zero_time}
use kaka.Memory.Options.{Options, cleanup_batch_size}

pub record KeyEntry (A : Type 0) : Type 0 where
  pub value : A
  pub last_seen : Time

pub record LruEntry (A : Type 0) : Type 0 where
  pub key : Key
  pub value : A
  pub last_seen : Time

pub record Element (A : Type 0) : Type 0 where
  pub id : ℕ
  pub entry : LruEntry A

pub record Shard (A : Type 0) : Type 0 where
  pub items : List (Key × KeyEntry A)
  pub order_items : List (Key × ℕ)
  pub order : List (Element A)
  pub next_id : ℕ
  pub last_cleanup : Time

-- The number of keys that the shard stores.
abbrev pub size : {A : Type 0} → Shard A → ℕ
size sh = length sh.items + length sh.order

abbrev pub empty_shard : {A : Type 0} → Shard A
empty_shard = record {
  items = [];
  order_items = [];
  order = [];
  next_id = 0;
  last_cleanup = zero_time;
}

-- A shard with the store's counters of live keys and of pending evictions, which its operations move.
pub record Held (A : Type 0) : Type 0 where
  pub shard : Shard A
  pub live : ℤ
  pub evicts : ℕ

abbrev pub expired_at : Options → Time → Time → Bool
expired_at o now seen = leb_ℤ o.key_ttl (time_sub now seen)

-- Whether a clean-up is due: it is configured, and the interval has passed.
unfoldable pub cleanup_off : Options → Bool
cleanup_off o = leb_ℤ o.key_ttl (pos 0) || leb_ℤ o.cleanup_interval (pos 0)

module _ {A : Type 0} where
  -- `order.Remove(elem)`
  unfoldable pub remove_elem : ℕ → List (Element A) → List (Element A)
  remove_elem i [] = []
  remove_elem i (e ∷ es) = if e.id == i then es else e ∷ remove_elem i es

  -- `elem.Value`, through the pointer
  unfoldable pub find_elem : ℕ → List (Element A) → Option (Element A)
  find_elem i [] = none
  find_elem i (e ∷ es) = if e.id == i then some e else find_elem i es

  -- `order.Back()`
  unfoldable pub back : List (Element A) → Option (Element A)
  back [] = none
  back (e ∷ []) = some e
  back (e ∷ f ∷ es) = back (f ∷ es)

  -- The keys of the visited entries that have expired.
  unfoldable pub expired_keys : Options → Time → List (Key × KeyEntry A) → List Key
  expired_keys o now [] = []
  expired_keys o now ((k, e) ∷ m) =
      if expired_at o now e.last_seen then k ∷ expired_keys o now m else expired_keys o now m

  unfoldable pub delete_keys : List Key → Held A → Held A
  delete_keys [] h = h
  delete_keys (k ∷ ks) h = delete_keys ks (elim (lookup k h.shard.items) [
    | none ↦ h
    | some e ↦ record h {
      shard = record (h.shard) { items = delete k h.shard.items };
      live = h.live -ℤ pos 1;
    }
  ])

  -- `visit` is the order in which the runtime ranges over the map.
  unfoldable pub cleanup_map :
      (Time → List (Key × KeyEntry A) → List (Key × KeyEntry A)) → Options → Time → Held A → Held A
  unfolding cleanup_off expired_keys delete_keys
  cleanup_map visit o now h =
      if cleanup_off o
      then h
      else if ltb_ℤ (time_sub now h.shard.last_cleanup) o.cleanup_interval
      then h
      else delete_keys (expired_keys o now (take cleanup_batch_size (visit now h.shard.items)))
          (record h { shard = record (h.shard) { last_cleanup = now } })

  unfoldable pub expired_elems : Options → Time → List (Element A) → List (Element A)
  expired_elems o now [] = []
  expired_elems o now (e ∷ es) =
      if expired_at o now e.entry.last_seen
      then e ∷ expired_elems o now es
      else expired_elems o now es

  unfoldable pub delete_elems : List (Element A) → Held A → Held A
  delete_elems [] h = h
  delete_elems (e ∷ es) h = delete_elems es (elim (lookup e.entry.key h.shard.order_items) [
    | none ↦ h
    | some _ ↦ record h {
      shard = record (h.shard) {
        order_items = delete e.entry.key h.shard.order_items;
        order = remove_elem e.id h.shard.order;
      };
      live = h.live -ℤ pos 1;
    }
  ])

  unfoldable pub cleanup_lru : Options → Time → Held A → Held A
  unfolding cleanup_off expired_elems delete_elems
  cleanup_lru o now h =
      if cleanup_off o
      then h
      else if ltb_ℤ (time_sub now h.shard.last_cleanup) o.cleanup_interval
      then h
      else delete_elems (expired_elems o now (take cleanup_batch_size h.shard.order))
          (record h { shard = record (h.shard) { last_cleanup = now } })

  -- `none` is `false`: there was nothing to evict.
  unfoldable pub evict_from : Held A → Option (Held A)
  evict_from h = elim (back h.shard.order) [
    | none ↦ none
    | some e ↦ some (record {
      shard = record (h.shard) {
        order_items = delete e.entry.key h.shard.order_items;
        order = remove_elem e.id h.shard.order;
      };
      live = h.live -ℤ pos 1;
      evicts = suc h.evicts;
    })
  ]

  -- `*pointer = v`, for the state of the element with that pointer
  unfoldable pub write_elem : ℕ → A → List (Element A) → List (Element A)
  write_elem i v [] = []
  write_elem i v (e ∷ es) =
      if e.id == i
      then record e { entry = record (e.entry) { value = v } } ∷ es
      else e ∷ write_elem i v es
