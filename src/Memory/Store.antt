-- ===== src/Memory/Store.antt =====
-- memory/sharded_store.go and memory/state_store.go, as one goroutine runs them: no other goroutine
-- acts while a shard lock is released in `reserve_slot`, and a compare-and-swap does not lose.
-- A value pointer is the value in its entry: what `fn` writes through the pointer is written back to
-- the entry. Where a lookup by a list element's pointer finds no element, or a loop runs out of fuel,
-- the outcome is `none`.
pub mod Thins
pub mod Reserve
pub mod Moves
pub mod Hits
pub mod Access
pub mod Promise
pub mod Threads
mod Tests
use kaka.Prelude.{
  ℕ, zero, suc, ◌+◌, ℤ, pos, pos_part, ◌+ℤ◌, ◌-ℤ◌, ltb_ℤ, leb_ℤ, eqb_ℤ, Bool, true, false, ◌||◌,
  Option, none, some, List, [], ◌∷◌, get_or, set, replicate, ◌==◌, lookup, insert, if◌then◌else◌,
  length,
}
use kaka.Core.{Key, Event, on_evict, tier_single}
use kaka.Clock.{Time, time_sub, zero_time}
use kaka.Memory.Options.{Options, evict_lru}
use kaka.Memory.Hash.{shard_for}
use kaka.Memory.Shard.{
  Shard, KeyEntry, Element, Held, empty_shard, cleanup_off, cleanup_map, cleanup_lru, evict_from,
  find_elem, remove_elem, write_elem,
}

pub record Store (A : Type 0) : Type 0 where
  pub shards : List (Shard A)
  pub live : ℤ
  pub last_sweep : Time
  pub evicts : ℕ

-- `fn` ran and returned, or the store was full.
pub data Verdict (R : Type 0) : Type 0 where
  ran : R → Verdict R
  max_keys_reached : Verdict R

abbrev pub is_lru : Options → Bool
is_lru o = eqb_ℤ o.eviction evict_lru

module _ {A : Type 0} where
  abbrev pub new_store : Options → Store A
  new_store o = record {
    shards = replicate (pos_part o.shards) empty_shard;
    live = pos 0;
    last_sweep = zero_time;
    evicts = 0;
  }

  -- Shard `i`, in the hands of a goroutine; `i` is always in range.
  abbrev pub held : Store A → ℕ → Held A
  held s i = record { shard = get_or s.shards i empty_shard; live = s.live; evicts = s.evicts }

  abbrev pub put_back : Store A → ℕ → Held A → Store A
  put_back s i h = record s { shards = set s.shards i h.shard; live = h.live; evicts = h.evicts }

  -- The loop of `evictAnyOther`, from shard `j` on.
  unfoldable pub evict_other :
      ℕ → ℕ → List (Shard A) → ℤ → ℕ → record { shards : List (Shard A); live : ℤ; evicts : ℕ }
  evict_other self j [] live evicts = record { shards = []; live = live; evicts = evicts }
  evict_other self j (sh ∷ shs) live evicts =
      let rest = evict_other self (suc j) shs live evicts in
      let skipped : record { shards : List (Shard A); live : ℤ; evicts : ℕ } = record {
        shards = sh ∷ rest.shards;
        live = rest.live;
        evicts = rest.evicts;
      } in
      if j == self
      then skipped
      else elim (evict_from (record { shard = sh; live = live; evicts = evicts })) [
        | none ↦ skipped
        | some h ↦ record { shards = h.shard ∷ shs; live = h.live; evicts = h.evicts }
      ]

  unfoldable pub evict_any_other : ℕ → Store A → Store A
  unfolding evict_other
  evict_any_other self s =
      let r = evict_other self 0 s.shards s.live s.evicts in
      record s { shards = r.shards; live = r.live; evicts = r.evicts }

  module _ (visit : Time → List (Key × KeyEntry A) → List (Key × KeyEntry A)) (o : Options)
      (now : Time) where
    unfoldable pub cleanup : Held A → Held A
    cleanup h = if is_lru o then cleanup_lru o now h else cleanup_map visit o now h

    unfoldable pub sweep_shards :
        List (Shard A) → ℤ → ℕ → record { shards : List (Shard A); live : ℤ; evicts : ℕ }
    sweep_shards [] live evicts = record { shards = []; live = live; evicts = evicts }
    sweep_shards (sh ∷ shs) live evicts =
        let h = cleanup (record { shard = sh; live = live; evicts = evicts }) in
        let rest = sweep_shards shs h.live h.evicts in
        record { shards = h.shard ∷ rest.shards; live = rest.live; evicts = rest.evicts }

    unfoldable pub sweep_expired : Store A → Store A
    unfolding cleanup sweep_shards
    sweep_expired s =
        if cleanup_off o
        then s
        else if ltb_ℤ (time_sub now s.last_sweep) o.cleanup_interval
        then s
        else (let r = sweep_shards s.shards s.live s.evicts in
            record { shards = r.shards; live = r.live; evicts = r.evicts; last_sweep = now })

    -- The loop of `reserveSlot`; the flag is `swept`.
    unfoldable pub reserve_from : ℕ → ℕ → Bool → Store A → Option (Store A × Bool)
    unfolding sweep_expired evict_any_other
    reserve_from zero i swept s = none
    reserve_from (suc fuel) i swept s =
        let swept_store : Store A = if swept then s else sweep_expired s in
        let emptier : Store A =
          if leb_ℤ o.max_keys swept_store.live
          then evict_any_other i swept_store
          else swept_store in
        let again_after_other = reserve_from fuel i true emptier in
        let again_after_sweep = reserve_from fuel i true (sweep_expired s) in
        if ltb_ℤ s.live o.max_keys
        then some (record s { live = s.live +ℤ pos 1 }, true)
        else if is_lru o
        then elim (evict_from (held s i)) [
          | some h ↦ reserve_from fuel i swept (put_back s i h)
          | none ↦ again_after_other
        ]
        else if swept
        then some (s, false)
        else again_after_sweep

    -- Three rounds are enough.
    unfoldable pub reserve_slot : ℕ → Store A → Option (Store A × Bool)
    unfolding reserve_from
    reserve_slot i s =
        if leb_ℤ o.max_keys (pos 0)
        then some (record s { live = s.live +ℤ pos 1 }, true)
        else reserve_from 3 i false s

module _ {A : Type 0} where
  -- `entry.lastSeen = now` through the pointer that the map holds
  abbrev pub touch_map : Key → KeyEntry A → Time → Held A → Held A
  touch_map key e now h = record h {
    shard = record (h.shard) { items = insert key (record e { last_seen = now }) h.shard.items };
  }

  -- `entry.lastSeen = now` and `order.MoveToFront(elem)`
  abbrev pub touch_lru : Element A → Time → Held A → Held A
  touch_lru e now h = record h {
    shard = record (h.shard) {
      order =
          record e { entry = record (e.entry) { last_seen = now } }
          ∷ remove_elem e.id h.shard.order;
    };
  }

  abbrev pub create_map : Key → A → Time → Held A → Held A
  create_map key v now h = record h {
    shard = record (h.shard) {
      items = insert key (record { value = v; last_seen = now }) h.shard.items;
    };
  }

  -- `order.PushFront` and `orderItems[key] = elem`
  abbrev pub create_lru : Key → A → Time → Held A → Held A
  create_lru key v now h = record h {
    shard = record (h.shard) {
      order =
          record { id = h.shard.next_id; entry = record { key = key; value = v; last_seen = now } }
          ∷ h.shard.order;
      order_items = insert key h.shard.next_id h.shard.order_items;
      next_id = suc h.shard.next_id;
    };
  }

  abbrev pub release_slot : Held A → Held A
  release_slot h = record h { live = h.live -ℤ pos 1 }

  -- A write of the state through the pointer that the entry of `key` holds; if the entry is gone,
  -- the pointer's target is garbage.
  unfoldable pub write_back : Options → Key → A → Shard A → Shard A
  unfolding write_elem
  write_back o key v sh =
      if is_lru o
      then elim (lookup key sh.order_items) [
        | none ↦ sh
        | some i ↦ record sh { order = write_elem i v sh.order }
      ]
      else elim (lookup key sh.items) [
        | none ↦ sh
        | some e ↦ record sh { items = insert key (record e { value = v }) sh.items }
      ]

  module _ (visit : Time → List (Key × KeyEntry A) → List (Key × KeyEntry A)) (o : Options)
      (create : Time → A) (now : Time) where
    -- After `reserveSlot` granted a slot: the key is looked up again.
    unfoldable pub settle_map : ℕ → Key → Store A → Store A × A
    settle_map i key s =
        let h = held s i in
        elim (lookup key h.shard.items) [
          | some e ↦ (put_back s i (touch_map key e now (release_slot h)), e.value)
          | none ↦ (put_back s i (create_map key (create now) now h), create now)
        ]

    -- The inner `none` is `false`: the store is full.
    unfoldable pub get_or_create_map : ℕ → Key → Store A → Option (Store A × Option A)
    unfolding cleanup_map reserve_slot settle_map
    get_or_create_map i key s =
        let h = held s i in
        elim (lookup key h.shard.items) [
          | some e ↦
              some (put_back s i (cleanup_map visit o now (touch_map key e now h)), some e.value)
          | none ↦ elim (reserve_slot visit o now i (put_back s i (cleanup_map visit o now h))) [
            | none ↦ none
            | some (t, granted) ↦
                if granted
                then (let (u, v) = settle_map i key t in some (u, some v))
                else some (t, none)
          ]
        ]

    unfoldable pub settle_lru : ℕ → Key → Store A → Option (Store A × A)
    settle_lru i key s =
        let h = held s i in
        elim (lookup key h.shard.order_items) [
          | none ↦ some (put_back s i (create_lru key (create now) now h), create now)
          | some id ↦ elim (find_elem id h.shard.order) [
            | none ↦ none
            | some e ↦ some (put_back s i (touch_lru e now (release_slot h)), e.entry.value)
          ]
        ]

    unfoldable pub get_or_create_lru : ℕ → Key → Store A → Option (Store A × Option A)
    unfolding cleanup_lru reserve_slot settle_lru
    get_or_create_lru i key s =
        let h = held s i in
        elim (lookup key h.shard.order_items) [
          | some id ↦ elim (find_elem id h.shard.order) [
            | none ↦ none
            | some e ↦
                some (put_back s i (cleanup_lru o now (touch_lru e now h)), some e.entry.value)
          ]
          | none ↦ elim (reserve_slot visit o now i (put_back s i (cleanup_lru o now h))) [
            | none ↦ none
            | some (t, granted) ↦
                if granted
                then elim (settle_lru i key t) [ none ↦ none | some (u, v) ↦ some (u, some v) ]
                else some (t, none)
          ]
        ]

    unfoldable pub find_or_create : ℕ → Key → Store A → Option (Store A × Option A)
    unfolding get_or_create_map get_or_create_lru
    find_or_create i key s =
        if is_lru o then get_or_create_lru i key s else get_or_create_map i key s

    abbrev pub write_store : ℕ → Key → A → Store A → Store A
    write_store i key v s = record s {
      shards = set s.shards i (write_back o key v (get_or s.shards i empty_shard));
    }

    unfoldable pub with_state :
        {R : Type 0} → (A → Time → A × R) → Key → Store A → Option (Store A × Verdict R)
    unfolding shard_for find_or_create write_back
    with_state fn key s =
        let i = shard_for (length s.shards) key in
        elim (find_or_create i key s) [
          | none ↦ none
          | some (t, none) ↦ some (t, max_keys_reached)
          | some (t, some v) ↦ let (w, r) = fn v now in some (write_store i key w t, ran r)
        ]

    -- For tests: the key's state.
    unfoldable pub get_or_create : Key → Store A → Option (Store A × Verdict A)
    unfolding with_state
    get_or_create = with_state (λ v now. (v, v))

  unfoldable pub len : Store A → ℤ
  len s = s.live

  -- The pending evictions, each of which is reported once.
  unfoldable pub drain_evictions : Bool → Store A → Store A × List Event
  drain_evictions sink s =
      (record s { evicts = 0 }, if sink then replicate s.evicts (on_evict tier_single) else [])
