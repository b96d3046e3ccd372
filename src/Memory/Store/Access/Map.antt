-- ===== src/Memory/Store/Access/Map.antt =====
-- memory/sharded_store.go, `getOrCreateMap` as a whole.
use kaka.Prelude.{
  ℕ, ◌<◌, ◌≡◌, refl, ap, ◌∙◌, inl, inr, Bool, true, false, none, some, List, length,
  get_or-set_self, key_eq_self, lookup, lookup-insert, Option-cases, arith,
}
use kaka.Core.{Key}
use kaka.Clock.{Time}
use kaka.Memory.Options.{Options}
use kaka.Memory.Shard.{KeyEntry, Held, empty_shard, cleanup_map}
use kaka.Memory.Shard.Sound.{IsSound}
use kaka.Memory.Shard.Cleaning.{Ranges}
use kaka.Memory.Shard.Cleanup.{cleanup_map-Shrinks}
use kaka.Memory.Shard.Edits.{with_item-new}
use kaka.Memory.Store.{
  Store, is_lru, held, put_back, create_map, reserve_slot, settle_map, get_or_create_map,
}
use kaka.Memory.Store.Thins.{unused, at}
use kaka.Memory.Store.Reserve.{Exact, Exact-Reserved, Reserved, reserve_slot-Reserved, at-IsSound}
use kaka.Memory.Store.Moves.{Alters-Shrinks, Alters-Edits, Spares-trans, Spares-Moves, Moves-Thins}
use kaka.Memory.Store.Hits.{hit_map, hit_map-Alters, hit_map-order, hit_map-here}
use kaka.Memory.Store.Access.{
  at-unused, value_at, Bounded, Accessed, Settled, Put, alter_step, creation_step,
}

module _ {A : Type 0} (visit : Time → List (Key × KeyEntry A) → List (Key × KeyEntry A))
    (o : Options) (create : Time → A) (now : Time) (key : Key) (i : ℕ) (ranges : Ranges (visit now))
    (s : Store A) (exact : Exact visit o now i s) (bounded : Bounded o s) where
  abbrev h : Held A
  h = held s i

  sound : IsSound h.shard
  sound = at-IsSound s.shards i exact.sound exact.in_range

  empty_side : unused o h.shard ≡ 0
  empty_side = at-unused o s.shards i exact.mode exact.in_range

  module _ (reject : is_lru o ≡ false) where
    map_hit :
        (e : KeyEntry A)
        → lookup key h.shard.items ≡ some e
        → Settled visit o create now key i s (get_or_create_map visit o create now i key s)
    unfolding get_or_create_map
    map_hit e here =
        let g = hit_map visit o now key h sound e here in
        let p =
          alter_step visit o create now key i s g exact
            (hit_map-Alters visit o now key h sound e here)
            (ground (arith, reject, empty_side, hit_map-order visit o now key h sound e here)) in
        let back : at (put_back s i g).shards i ≡ g.shard =
          get_or-set_self s.shards i g.shard empty_shard exact.in_range in
        inl (
          put_back s i g,
          e.value,
          rw (here, get_or_create_map),
          record {
            exact = p.exact;
            bounded = p.bounded bounded;
            spares = p.spares;
            here = ground (arith, back, reject, hit_map-here visit o now key h sound e here ranges);
            origin = inl (ground (arith, reject, here));
          },
        )

    abbrev cleaned : Store A
    cleaned = put_back s i (cleanup_map visit o now h)

    cleaned-Put : Put visit o create now key i s cleaned
    cleaned-Put =
        let a = cleanup_map-Shrinks visit o now h sound in
        alter_step visit o create now key i s (cleanup_map visit o now h) exact
          (Alters-Shrinks key a) (ground (arith, reject, empty_side, a.fewer_elems))

    cleaned-absent : lookup key h.shard.items ≡ none → lookup key (at cleaned.shards i).items ≡ none
    cleaned-absent gone =
        let a = cleanup_map-Shrinks visit o now h sound in
        let back : at cleaned.shards i ≡ (cleanup_map visit o now h).shard =
          get_or-set_self s.shards i (cleanup_map visit o now h).shard empty_shard exact.in_range in
        ground (arith, back, a.items key, gone)

    module _ (t : Store A) (gone : lookup key (at t.shards i).items ≡ none) where
      abbrev made_map : Held A
      made_map = create_map key (create now) now (held t i)

      made_map-here : value_at o key made_map.shard ≡ some (create now)
      made_map-here = ground (
        arith,
        reject,
        key_eq_self key,
        lookup-insert key key (record { value = create now; last_seen = now })
            (held t i).shard.items,
      )

      settle_map-created :
          settle_map visit o create now i key t ≡ (put_back t i made_map, create now)
      unfolding settle_map
      settle_map-created = rw (gone, settle_map)

      made_map-Accessed :
          lookup key h.shard.items ≡ none
          → Reserved visit o now i cleaned t true
          → Accessed visit o create now key i s (put_back t i made_map) (create now)
      made_map-Accessed before r =
          let p = cleaned-Put in
          let inside : i < length t.shards = omega (arith, p.exact.in_range, r.thins.as_many) in
          let a =
            with_item-new key (record { value = create now; last_seen = now }) (held t i).shard
              (at-IsSound t.shards i r.thins.sound inside) gone in
          let (x, b, spares) =
            creation_step visit o create now key i cleaned t made_map p.exact r
              (Alters-Edits t.live t.evicts a) refl
              (ground (arith, reject, at-unused o t.shards i r.thins.mode inside)) in
          record {
            exact = x;
            bounded = b;
            spares = Spares-trans p.spares spares;
            here =
                ap (value_at o key) (get_or-set_self t.shards i made_map.shard empty_shard inside)
                ∙ made_map-here;
            origin = inr (ground (arith, reject, before), refl);
          }

    map_missed :
        lookup key h.shard.items ≡ none
        → (t : Store A) (granted : Bool) → reserve_slot visit o now i cleaned ≡ some (t, granted)
        → Reserved visit o now i cleaned t granted
        → lookup key (at t.shards i).items ≡ none
        → Settled visit o create now key i s (get_or_create_map visit o create now i key s)
    unfolding get_or_create_map
    map_missed gone t true e r absent = inl (
      put_back t i (made_map t absent),
      create now,
      rw (gone, get_or_create_map, e, settle_map-created t absent),
      made_map-Accessed t absent gone r,
    )
    map_missed gone t false e r absent =
        let p = cleaned-Put in
        inr (
          t,
          rw (gone, get_or_create_map, e),
          record {
            exact = Exact-Reserved visit o now i p.exact r;
            spares = Spares-trans p.spares (Spares-Moves (Moves-Thins key r.thins));
            mode = reject;
            full = ground (arith, r.verdict);
            before = ground (arith, reject, gone);
            after = ground (arith, reject, absent);
          },
        )

    pub get_or_create_map-Settled :
        Settled visit o create now key i s (get_or_create_map visit o create now i key s)
    get_or_create_map-Settled = elim (Option-cases (lookup key h.shard.items)) [
      | inr (e, here) ↦ map_hit e here
      | inl gone ↦
          let p = cleaned-Put in
          let (t, granted, e, r) =
            reserve_slot-Reserved visit o now i cleaned p.exact (p.bounded bounded) in
          map_missed gone t granted e r (ground (arith, r.thins.items i key, cleaned-absent gone))
    ]
