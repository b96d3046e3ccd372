-- ===== src/Memory/Store/Hits.antt =====
-- memory/sharded_store.go: `getOrCreateMap` and `getOrCreateLRU` on a key that its shard has. The entry
-- is touched first, so that the clean-up that follows does not remove it.
use kaka.Prelude.{
  ◌≡◌, refl, true, false, some, List, length, inl, inr, key_eq_self, lookup, lookup-insert, arith,
  Bool-cases,
}
use kaka.Core.{Key}
use kaka.Clock.{Time, time_sub_self}
use kaka.Memory.Options.{Options}
use kaka.Memory.Shard.{KeyEntry, Element, Held, expired_at, cleanup_off, cleanup_map, cleanup_lru}
use kaka.Memory.Shard.Lru.{entry_of, entry_of-key}
use kaka.Memory.Shard.Sound.{IsSound}
use kaka.Memory.Shard.Cleaning.{Ranges}
use kaka.Memory.Shard.Cleanup.{
  cleanup_map-Shrinks, cleanup_lru-Shrinks, cleanup_map-kept, cleanup_lru-kept,
}
use kaka.Memory.Shard.Edits.{Edits, with_item-old, moved_front-Edits}
use kaka.Memory.Store.{touch_map, touch_lru}
use kaka.Memory.Store.Moves.{Alters, Alters-Shrinks, Alters-Edits, Alters-trans}

-- Nothing that was seen now has expired, if there is a clean-up at all.
fresh_now : (o : Options) (now : Time) → cleanup_off o ≡ false → expired_at o now now ≡ false
unfolding cleanup_off
fresh_now o now h = ground (arith, time_sub_self now)

cleanup_map_off :
    {A : Type 0} (visit : Time → List (Key × KeyEntry A) → List (Key × KeyEntry A)) (o : Options)
    (now : Time) (h : Held A)
    → cleanup_off o ≡ true
    → cleanup_map visit o now h ≡ h
unfolding cleanup_map
cleanup_map_off visit o now h off = rw off

cleanup_lru_off :
    {A : Type 0} (o : Options) (now : Time) (h : Held A)
    → cleanup_off o ≡ true
    → cleanup_lru o now h ≡ h
unfolding cleanup_lru
cleanup_lru_off o now h off = rw off

abbrev pub seen_at : {A : Type 0} → Time → KeyEntry A → KeyEntry A
seen_at now e = record e { last_seen = now }

abbrev pub moved_at : {A : Type 0} → Time → Element A → Element A
moved_at now e = record e { entry = record (e.entry) { last_seen = now } }

module _ {A : Type 0} (visit : Time → List (Key × KeyEntry A) → List (Key × KeyEntry A))
    (o : Options) (now : Time) (key : Key) (h : Held A) (s : IsSound h.shard) where
  module _ (e : KeyEntry A) (here : lookup key h.shard.items ≡ some e) where
    abbrev pub touched_map : Held A
    touched_map = touch_map key e now h

    abbrev pub hit_map : Held A
    hit_map = cleanup_map visit o now touched_map

    touched_map-Edits : Edits key h.shard touched_map.shard 0
    touched_map-Edits = with_item-old key (seen_at now e) e h.shard s here

    pub hit_map-Alters : Alters key h hit_map 0
    hit_map-Alters =
        Alters-trans (Alters-Edits h.live h.evicts touched_map-Edits)
          (Alters-Shrinks key (cleanup_map-Shrinks visit o now touched_map touched_map-Edits.sound))

    -- No element appears.
    pub hit_map-order : length h.shard.order ≡ 0 → length hit_map.shard.order ≡ 0
    hit_map-order p =
        let a = cleanup_map-Shrinks visit o now touched_map touched_map-Edits.sound in
        omega (arith, a.fewer_elems)

    pub hit_map-here : Ranges (visit now) → lookup key hit_map.shard.items ≡ some (seen_at now e)
    hit_map-here ranges =
        let touched : lookup key touched_map.shard.items ≡ some (seen_at now e) =
          ground (arith, lookup-insert key key (seen_at now e) h.shard.items, key_eq_self key) in
        elim (Bool-cases (cleanup_off o)) [
          | inl off ↦ rw (cleanup_map_off visit o now touched_map off) touched
          | inr on ↦
              cleanup_map-kept visit o now touched_map key (seen_at now e)
                (ranges touched_map.shard.items touched_map-Edits.sound.keys) touched
                (fresh_now o now on)
        ]

  module _ (e : Element A) (here : entry_of key h.shard.order ≡ some e) where
    abbrev pub touched_lru : Held A
    touched_lru = touch_lru e now h

    abbrev pub hit_lru : Held A
    hit_lru = cleanup_lru o now touched_lru

    touched_lru-Edits : Edits key h.shard touched_lru.shard 0
    touched_lru-Edits = moved_front-Edits key e (moved_at now e) h.shard s here refl refl

    pub hit_lru-Alters : Alters key h hit_lru 0
    hit_lru-Alters =
        Alters-trans (Alters-Edits h.live h.evicts touched_lru-Edits)
          (Alters-Shrinks key (cleanup_lru-Shrinks visit o now touched_lru touched_lru-Edits.sound))

    pub hit_lru-items : length h.shard.items ≡ 0 → length hit_lru.shard.items ≡ 0
    hit_lru-items p =
        let a = cleanup_lru-Shrinks visit o now touched_lru touched_lru-Edits.sound in
        omega (arith, a.fewer_items)

    pub hit_lru-here : entry_of key hit_lru.shard.order ≡ some (moved_at now e)
    unfolding entry_of
    hit_lru-here =
        let touched : entry_of key touched_lru.shard.order ≡ some (moved_at now e) =
          ground (arith, entry_of-key key h.shard.order e here, key_eq_self key) in
        elim (Bool-cases (cleanup_off o)) [
          | inl off ↦ rw (cleanup_lru_off o now touched_lru off) touched
          | inr on ↦
              cleanup_lru-kept visit o now touched_lru key (moved_at now e) touched_lru-Edits.sound
                touched (fresh_now o now on)
        ]
