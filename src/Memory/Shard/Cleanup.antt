-- ===== src/Memory/Shard/Cleanup.antt =====
-- memory/sharded_store.go: `cleanupMap`, `cleanupLRU` and `evictFrom` as wholes.
use kaka.Prelude.{
  suc, ◌≡◌, refl, ◌∙◌, ◌⊎◌, inl, inr, pos, ◌-ℤ◌, Bool, false, none, some, List, [], length, take,
  lookup, Option-cases, arith, ltb_ℤ,
}
use kaka.Core.{Key}
use kaka.Clock.{Time, time_sub}
use kaka.Memory.Options.{Options, cleanup_batch_size}
use kaka.Memory.Shard.{
  Held, KeyEntry, Element, expired_at, expired_keys, delete_keys, cleanup_map, expired_elems,
  delete_elems, cleanup_lru, back, evict_from,
}
use kaka.Memory.Shard.Lru.{
  entry_of, expired_batch, find_elem-entry_of, back-found, back-none, length-remove_elem,
}
use kaka.Memory.Shard.Sound.{
  IsSound, Shrinks, Shrinks-refl, Shrinks-trans, without_elem, without_elem-Shrinks,
}
use kaka.Memory.Shard.Cleaning.{
  Listed, delete_keys-Shrinks, delete_keys-kept, expired_keys-live, Listed-take,
  delete_elems-Shrinks, delete_elems-kept, expired_elems-live, Found-batch,
}

module _ {A : Type 0} where
  module _ (visit : Time → List (Key × KeyEntry A) → List (Key × KeyEntry A)) (o : Options)
      (now : Time) (h : Held A) where
    abbrev stamped : Held A
    stamped = record h { shard = record (h.shard) { last_cleanup = now } }

    stamped-IsSound : IsSound h.shard → IsSound stamped.shard
    stamped-IsSound s = record {
      keys = s.keys;
      index = s.index;
      elems = s.elems;
      fresh = s.fresh;
      synced = s.synced;
    }

    stamped-Shrinks : IsSound h.shard → Shrinks h stamped
    stamped-Shrinks s = record {
      sound = stamped-IsSound s;
      counted = omega arith;
      fewer_items = omega arith;
      fewer_elems = omega arith;
      items = λ k. inr refl;
      order = λ k. inr refl;
    }

    abbrev due : Bool
    due = ltb_ℤ (time_sub now h.shard.last_cleanup) o.cleanup_interval

    abbrev ripe_keys : List Key
    ripe_keys = expired_keys o now (take cleanup_batch_size (visit now h.shard.items))

    abbrev ripe_elems : List (Element A)
    ripe_elems = expired_elems o now (take cleanup_batch_size h.shard.order)

    -- A clean-up does nothing, or removes the batch.
    cleanup_map-cases :
        (cleanup_map visit o now h ≡ h)
        ⊎ (cleanup_map visit o now h ≡ delete_keys ripe_keys stamped)
    unfolding cleanup_map
    cleanup_map-cases = ground arith

    cleanup_lru-cases :
        (cleanup_lru o now h ≡ h) ⊎ (cleanup_lru o now h ≡ delete_elems ripe_elems stamped)
    unfolding cleanup_lru
    cleanup_lru-cases = ground arith

    pub cleanup_map-Shrinks : IsSound h.shard → Shrinks h (cleanup_map visit o now h)
    cleanup_map-Shrinks s = elim cleanup_map-cases [
      | inl e ↦ rw e (Shrinks-refl h s)
      | inr e ↦ rw e (
          Shrinks-trans (stamped-Shrinks s)
            (delete_keys-Shrinks ripe_keys stamped (stamped-IsSound s)))
    ]

    -- On a sound shard `cleanupLRU` only removes keys, each with its list element and its index entry,
    -- and counts each out of the live keys.
    pub cleanup_lru-Shrinks : IsSound h.shard → Shrinks h (cleanup_lru o now h)
    cleanup_lru-Shrinks s =
        let (f, d) = expired_batch o now cleanup_batch_size h.shard.order s.elems in
        elim cleanup_lru-cases [
          | inl e ↦ rw e (Shrinks-refl h s)
          | inr e ↦ rw e (
              Shrinks-trans (stamped-Shrinks s)
                (delete_elems-Shrinks ripe_elems stamped (stamped-IsSound s) f d))
        ]

    -- `cleanupMap` deletes no key that was seen less than the key's time to live ago, if the runtime
    -- ranges over entries of the map.
    pub cleanup_map-kept :
        (k : Key) (e : KeyEntry A)
        → Listed h.shard.items (visit now h.shard.items)
        → lookup k h.shard.items ≡ some e
        → expired_at o now e.last_seen ≡ false
        → lookup k (cleanup_map visit o now h).shard.items ≡ some e
    cleanup_map-kept k e l here live = elim cleanup_map-cases [
      | inl p ↦ rw p here
      | inr p ↦
          let batch = Listed-take cleanup_batch_size h.shard.items (visit now h.shard.items) l in
          rw p (
            delete_keys-kept ripe_keys stamped k
              (expired_keys-live o now h.shard.items _ k e batch here live)
            ∙ here)
    ]

    -- `cleanupLRU` removes no key that was seen less than the key's time to live ago.
    pub cleanup_lru-kept :
        (k : Key) (x : Element A)
        → IsSound h.shard
        → entry_of k h.shard.order ≡ some x
        → expired_at o now x.entry.last_seen ≡ false
        → entry_of k (cleanup_lru o now h).shard.order ≡ some x
    cleanup_lru-kept k x s here live =
        let (f, d) = expired_batch o now cleanup_batch_size h.shard.order s.elems in
        let found = find_elem-entry_of k h.shard.order x s.elems here in
        elim cleanup_lru-cases [
          | inl p ↦ rw p here
          | inr p ↦ rw p (
              delete_elems-kept ripe_elems stamped k x (stamped-IsSound s) f d here (
                expired_elems-live o now h.shard.order _ x
                  (Found-batch cleanup_batch_size h.shard.order s.elems) found live))
        ]

  -- `evictFrom` fails on a shard with no element only, and otherwise removes one key, counts it out
  -- of the live keys, and notes one eviction.
  pub evict_from-Shrinks :
      (h : Held A)
      → IsSound h.shard
      → ((evict_from h ≡ none) × (h.shard.order ≡ []))
        ⊎ ((g : Held A) × (evict_from h ≡ some g)
            × Shrinks h g
            × (g.shard.items ≡ h.shard.items)
            × (suc (length g.shard.order) ≡ length h.shard.order)
            × (g.evicts ≡ suc h.evicts))
  unfolding evict_from
  evict_from-Shrinks h s = elim (Option-cases (back h.shard.order)) [
    | inl p ↦ inl (rw (p, evict_from), back-none h.shard.order p)
    | inr (e, p) ↦
        let found = back-found h.shard.order e s.elems p in
        let gone = length-remove_elem e.id h.shard.order e found in
        inr (
          record { shard = without_elem e h.shard; live = h.live -ℤ pos 1; evicts = suc h.evicts },
          rw (p, evict_from),
          without_elem-Shrinks e h.shard s found h.live h.evicts (suc h.evicts),
          refl,
          gone,
          refl,
        )
  ]
