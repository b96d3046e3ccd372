-- ===== src/Memory/Store/Access/Lru.antt =====
-- memory/sharded_store.go, `getOrCreateLRU` as a whole: it never refuses.
use kaka.Prelude.{
  ℕ, ◌<◌, ◌≡◌, refl, ap, ◌∙◌, inl, inr, Bool, true, false, none, some, List, length,
  get_or-set_self, key_eq_self, lookup, Option-cases, arith,
}
use kaka.Core.{Key}
use kaka.Clock.{Time}
use kaka.Memory.Options.{Options}
use kaka.Memory.Shard.{KeyEntry, Element, Held, empty_shard, cleanup_lru, find_elem}
use kaka.Memory.Shard.Lru.{entry_of, find_elem-entry_of}
use kaka.Memory.Shard.Sound.{IsSound, id_of}
use kaka.Memory.Shard.Cleanup.{cleanup_lru-Shrinks}
use kaka.Memory.Shard.Edits.{pushed_front-Edits}
use kaka.Memory.Store.{
  Store, is_lru, held, put_back, create_lru, reserve_slot, settle_lru, get_or_create_lru,
}
use kaka.Memory.Store.Thins.{unused, at}
use kaka.Memory.Store.Reserve.{Exact, Reserved, reserve_slot-Reserved, at-IsSound}
use kaka.Memory.Store.Moves.{Alters-Shrinks, Alters-Edits, Spares-trans}
use kaka.Memory.Store.Hits.{hit_lru, hit_lru-Alters, hit_lru-items, hit_lru-here}
use kaka.Memory.Store.Access.{
  at-unused, value_at, Bounded, Accessed, Settled, Put, alter_step, creation_step,
}

module _ {A : Type 0} (visit : Time → List (Key × KeyEntry A) → List (Key × KeyEntry A))
    (o : Options) (create : Time → A) (now : Time) (key : Key) (i : ℕ) (s : Store A)
    (exact : Exact visit o now i s) (bounded : Bounded o s) where
  abbrev h : Held A
  h = held s i

  sound : IsSound h.shard
  sound = at-IsSound s.shards i exact.sound exact.in_range

  empty_side : unused o h.shard ≡ 0
  empty_side = at-unused o s.shards i exact.mode exact.in_range

  module _ (lru : is_lru o ≡ true) where
    indexed_as : lookup key h.shard.order_items ≡ id_of (entry_of key h.shard.order)
    indexed_as = sound.synced key

    lru_hit :
        (e : Element A)
        → entry_of key h.shard.order ≡ some e
        → Settled visit o create now key i s (get_or_create_lru visit o create now i key s)
    unfolding get_or_create_lru
    lru_hit e here =
        let g = hit_lru visit o now key h sound e here in
        let p =
          alter_step visit o create now key i s g exact
            (hit_lru-Alters visit o now key h sound e here)
            (ground (arith, lru, empty_side, hit_lru-items visit o now key h sound e here)) in
        let back : at (put_back s i g).shards i ≡ g.shard =
          get_or-set_self s.shards i g.shard empty_shard exact.in_range in
        let index : lookup key h.shard.order_items ≡ some e.id = indexed_as ∙ ap id_of here in
        let found : find_elem e.id h.shard.order ≡ some e =
          find_elem-entry_of key h.shard.order e sound.elems here in
        inl (
          put_back s i g,
          e.entry.value,
          rw (index, get_or_create_lru, found),
          record {
            exact = p.exact;
            bounded = p.bounded bounded;
            spares = p.spares;
            here = ground (arith, back, lru, hit_lru-here visit o now key h sound e here);
            origin = inl (ground (arith, lru, here));
          },
        )

    abbrev cleaned : Store A
    cleaned = put_back s i (cleanup_lru o now h)

    cleaned-Put : Put visit o create now key i s cleaned
    cleaned-Put =
        let a = cleanup_lru-Shrinks visit o now h sound in
        alter_step visit o create now key i s (cleanup_lru o now h) exact (Alters-Shrinks key a)
          (ground (arith, lru, empty_side, a.fewer_items))

    cleaned-absent :
        entry_of key h.shard.order ≡ none → entry_of key (at cleaned.shards i).order ≡ none
    cleaned-absent gone =
        let a = cleanup_lru-Shrinks visit o now h sound in
        let back : at cleaned.shards i ≡ (cleanup_lru o now h).shard =
          get_or-set_self s.shards i (cleanup_lru o now h).shard empty_shard exact.in_range in
        ground (arith, back, a.order key, gone)

    module _ (t : Store A) (there : IsSound (at t.shards i))
        (gone : entry_of key (at t.shards i).order ≡ none) where
      abbrev made_lru : Held A
      made_lru = create_lru key (create now) now (held t i)

      made_lru-here : value_at o key made_lru.shard ≡ some (create now)
      unfolding entry_of
      made_lru-here = ground (arith, lru, key_eq_self key)

      settle_lru-created :
          settle_lru visit o create now i key t ≡ some (put_back t i made_lru, create now)
      unfolding settle_lru
      settle_lru-created =
          let index : lookup key (held t i).shard.order_items ≡ none =
            there.synced key ∙ ap id_of gone in
          rw (index, settle_lru)

      made_lru-Accessed :
          entry_of key h.shard.order ≡ none
          → Reserved visit o now i cleaned t true
          → Accessed visit o create now key i s (put_back t i made_lru) (create now)
      made_lru-Accessed before r =
          let p = cleaned-Put in
          let inside : i < length t.shards = omega (arith, p.exact.in_range, r.thins.as_many) in
          let a =
            pushed_front-Edits
              (record {
                id = (held t i).shard.next_id;
                entry = record { key = key; value = create now; last_seen = now };
              })
              (held t i).shard there refl gone in
          let (x, b, spares) =
            creation_step visit o create now key i cleaned t made_lru p.exact r
              (Alters-Edits t.live t.evicts a) refl
              (ground (arith, lru, at-unused o t.shards i r.thins.mode inside)) in
          record {
            exact = x;
            bounded = b;
            spares = Spares-trans p.spares spares;
            here =
                ap (value_at o key) (get_or-set_self t.shards i made_lru.shard empty_shard inside)
                ∙ made_lru-here;
            origin = inr (ground (arith, lru, before), refl);
          }

    lru_missed :
        entry_of key h.shard.order ≡ none
        → (t : Store A) (granted : Bool) → reserve_slot visit o now i cleaned ≡ some (t, granted)
        → Reserved visit o now i cleaned t granted
        → entry_of key (at t.shards i).order ≡ none
        → Settled visit o create now key i s (get_or_create_lru visit o create now i key s)
    unfolding get_or_create_lru
    lru_missed gone t true e r absent =
        let index : lookup key h.shard.order_items ≡ none = indexed_as ∙ ap id_of gone in
        let there =
          at-IsSound t.shards i r.thins.sound
            (omega (arith, cleaned-Put.exact.in_range, r.thins.as_many)) in
        inl (
          put_back t i (made_lru t there absent),
          create now,
          rw (index, get_or_create_lru, e, settle_lru-created t there absent),
          made_lru-Accessed t there absent gone r,
        )
    lru_missed gone t false e r absent = absurd (ground (arith, r.verdict, lru))

    pub get_or_create_lru-Settled :
        Settled visit o create now key i s (get_or_create_lru visit o create now i key s)
    get_or_create_lru-Settled = elim (Option-cases (entry_of key h.shard.order)) [
      | inr (e, here) ↦ lru_hit e here
      | inl gone ↦
          let p = cleaned-Put in
          let (t, granted, e, r) =
            reserve_slot-Reserved visit o now i cleaned p.exact (p.bounded bounded) in
          lru_missed gone t granted e r (ground (arith, r.thins.order i key, cleaned-absent gone))
    ]
