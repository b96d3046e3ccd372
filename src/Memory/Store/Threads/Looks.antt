-- ===== src/Memory/Store/Threads/Looks.antt =====
-- memory/sharded_store.go, `getOrCreateMap` and `getOrCreateLRU` up to `reserveSlot`, as one turn under
-- the shard's lock.
use kaka.Prelude.{
  ℕ, ◌≡◌, ◌<◌, refl, ap, ◌∙◌, ◌⊎◌, inl, inr, true, false, Option, none, some, List, length,
  get_or-set_self, lookup, Bool-cases, Option-cases, arith,
}
use kaka.Core.{Key}
use kaka.Clock.{Time}
use kaka.Memory.Options.{Options}
use kaka.Memory.Shard.{Held, KeyEntry, empty_shard, cleanup_map, cleanup_lru, find_elem}
use kaka.Memory.Shard.Lru.{entry_of, find_elem-entry_of}
use kaka.Memory.Shard.Sound.{IsSound, id_of}
use kaka.Memory.Shard.Cleaning.{Ranges}
use kaka.Memory.Shard.Cleanup.{cleanup_map-Shrinks, cleanup_lru-Shrinks}
use kaka.Memory.Store.{is_lru}
use kaka.Memory.Store.Thins.{unused}
use kaka.Memory.Store.Moves.{Alters, Alters-Shrinks}
use kaka.Memory.Store.Hits.{
  hit_map, hit_map-Alters, hit_map-order, hit_map-here, hit_lru, hit_lru-Alters, hit_lru-items,
  hit_lru-here,
}
use kaka.Memory.Store.Access.{at-unused, value_at}
use kaka.Memory.Store.Reserve.{at-IsSound}
use kaka.Memory.Store.Threads.{
  Request, looking, serving, reserving, paying, Shared, local, put, debt, look, look_map, look_turn,
  after_look,
}
use kaka.Memory.Store.Threads.Owing.{holds, sweeps, owed, subject}
use kaka.Memory.Store.Threads.Inv.{Placed, Effect}
use kaka.Memory.Store.Threads.Effects.{Known, Good, writes}

module _ {A R : Type 0} (visit : Time → List (Key × KeyEntry A) → List (Key × KeyEntry A))
    (o : Options) (create : Time → A) (fn : A → Time → A × R)
    (ranges : (now : Time) → Ranges (visit now)) (n t : ℕ) (m : Shared A) (known : Known o n t m)
    (r : Request) (placed : Placed n r) (inside : r.home < length m.shards) where
  abbrev h : Held A
  h = local m r.home

  sound : IsSound h.shard
  sound = at-IsSound m.shards r.home known.sound inside

  empty_side : unused o h.shard ≡ 0
  empty_side = at-unused o m.shards r.home known.mode inside

  -- The key was found, or not.
  abbrev Found : Held A → Option A → Type 0
  Found g none = Unit {0}
  Found g (some v) = value_at o r.key g.shard ≡ some v

  looked :
      (g : Held A) (found : Option A)
      → Alters r.key h g 0
      → (value_at o r.key g.shard ≡ none) ⊎ (value_at o r.key g.shard ≡ value_at o r.key h.shard)
      → unused o g.shard ≡ 0
      → Found g found
      → Effect o n t m
          (looking r)
          (put m r.home g)
          (paying (debt g) (after_look visit o create fn r found))
  unfolding holds sweeps owed subject
  looked g none a own e f =
      writes o n t m known (looking r) (paying (debt g) (reserving false r)) r.key r.home 0 g inside
        refl a (inr (refl, own)) e (omega arith) placed refl refl
  looked g (some v) a own e f =
      writes o n t m known (looking r) (paying (debt g) (serving v r)) r.key r.home 0 g inside refl
        a (inr (refl, own)) e (omega arith)
        (
          placed,
          ap (value_at o r.key) (get_or-set_self m.shards r.home g.shard empty_shard inside) ∙ f,
        )
        refl refl

  look_map-Good : is_lru o ≡ false → Good o n t m (looking r) (look_turn visit o create fn m r)
  unfolding look_turn look
  look_map-Good reject = elim (Option-cases (lookup r.key h.shard.items)) [
    | inr (e, here) ↦
        rw (reject, look_turn, look, here, look_map)
          (looked (hit_map visit o r.now r.key h sound e here) (some e.value)
            (hit_map-Alters visit o r.now r.key h sound e here)
            (inr (
              ground (
                arith,
                reject,
                here,
                hit_map-here visit o r.now r.key h sound e here (ranges r.now),
              )))
            (ground (arith, reject, empty_side, hit_map-order visit o r.now r.key h sound e here))
            (ground
              (arith, reject, hit_map-here visit o r.now r.key h sound e here (ranges r.now))))
    | inl gone ↦
        let a = cleanup_map-Shrinks visit o r.now h sound in
        rw (reject, look_turn, look, gone, look_map)
          (looked (cleanup_map visit o r.now h) none (Alters-Shrinks r.key a)
            (ground (arith, reject, a.items r.key))
            (ground (arith, reject, empty_side, a.fewer_elems)) tt)
  ]

  look_lru-Good : is_lru o ≡ true → Good o n t m (looking r) (look_turn visit o create fn m r)
  unfolding look_turn look
  look_lru-Good lru = elim (Option-cases (entry_of r.key h.shard.order)) [
    | inr (e, here) ↦
        let index : lookup r.key h.shard.order_items ≡ some e.id =
          sound.synced r.key ∙ ap id_of here in
        let found : find_elem e.id h.shard.order ≡ some e =
          find_elem-entry_of r.key h.shard.order e sound.elems here in
        rw (lru, index, look_turn, look, found)
          (looked (hit_lru visit o r.now r.key h sound e here) (some e.entry.value)
            (hit_lru-Alters visit o r.now r.key h sound e here)
            (inr (ground (arith, lru, here, hit_lru-here visit o r.now r.key h sound e here)))
            (ground (arith, lru, empty_side, hit_lru-items visit o r.now r.key h sound e here))
            (ground (arith, lru, hit_lru-here visit o r.now r.key h sound e here)))
    | inl gone ↦
        let index : lookup r.key h.shard.order_items ≡ none = sound.synced r.key ∙ ap id_of gone in
        let a = cleanup_lru-Shrinks visit o r.now h sound in
        rw (lru, index, look_turn, look)
          (looked (cleanup_lru o r.now h) none (Alters-Shrinks r.key a)
            (ground (arith, lru, a.order r.key)) (ground (arith, lru, empty_side, a.fewer_items))
            tt)
  ]

  pub look-Good : Good o n t m (looking r) (look_turn visit o create fn m r)
  look-Good = elim (Bool-cases (is_lru o)) [
    | inl lru ↦ look_lru-Good lru
    | inr reject ↦ look_map-Good reject
  ]
