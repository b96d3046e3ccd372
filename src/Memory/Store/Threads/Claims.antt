-- ===== src/Memory/Store/Threads/Claims.antt =====
-- memory/sharded_store.go, `getOrCreateMap` and `getOrCreateLRU` after `reserveSlot`, and the call of
-- `fn`, each as one turn under the shard's lock.
use kaka.Prelude.{
  ℕ, ◌+◌, ◌≡◌, ◌<◌, refl, ap, ◌∙◌, inl, inr, pos, true, false, none, some, List, length,
  get_or-set_self, key_eq_self, lookup, lookup-insert, Bool-cases, Option-cases, arith,
}
use kaka.Core.{Key}
use kaka.Clock.{Time}
use kaka.Memory.Options.{Options}
use kaka.Memory.Shard.{Shard, Held, KeyEntry, Element, empty_shard, find_elem}
use kaka.Memory.Shard.Lru.{entry_of, entry_of-key, find_elem-entry_of}
use kaka.Memory.Shard.Sound.{IsSound, id_of}
use kaka.Memory.Shard.Edits.{
  Edits, with_item-old, with_item-new, moved_front-Edits, pushed_front-Edits,
}
use kaka.Memory.Store.{is_lru, touch_map, touch_lru, create_map, create_lru, write_back}
use kaka.Memory.Store.Thins.{unused}
use kaka.Memory.Store.Moves.{Alters-Edits}
use kaka.Memory.Store.Hits.{seen_at, moved_at}
use kaka.Memory.Store.Access.{at-unused, value_at}
use kaka.Memory.Store.Reserve.{at-IsSound}
use kaka.Memory.Store.Promise.{write_back-map, write_back-lru}
use kaka.Memory.Store.Threads.{
  Request, claiming, serving, leaving, paying, Shared, local, put, claim, claim_map, claim_turn,
  serve_turn,
}
use kaka.Memory.Store.Threads.Owing.{holds, sweeps, owed, subject}
use kaka.Memory.Store.Threads.Inv.{Placed, Effect}
use kaka.Memory.Store.Threads.Effects.{Known, Good, writes}

module _ {A R : Type 0} (visit : Time → List (Key × KeyEntry A) → List (Key × KeyEntry A))
    (o : Options) (create : Time → A) (fn : A → Time → A × R) (n t : ℕ) (m : Shared A)
    (known : Known o n t m) (r : Request) (placed : Placed n r)
    (inside : r.home < length m.shards) where
  abbrev h : Held A
  h = local m r.home

  sound : IsSound h.shard
  sound = at-IsSound m.shards r.home known.sound inside

  empty_side : unused o h.shard ≡ 0
  empty_side = at-unused o m.shards r.home known.mode inside

  -- The key has the state `v` in the shard that is put back; `k` keys are new, `slots` are given back.
  claimed :
      (sh : Shard A) (v : A) (k slots : ℕ)
      → Edits r.key h.shard sh k
      → unused o sh ≡ 0
      → slots + k ≡ 1
      → value_at o r.key sh ≡ some v
      → Effect o n t m
          (claiming r)
          (put m r.home (record h { shard = sh }))
          (paying slots (serving v r))
  unfolding holds sweeps owed subject
  claimed sh v k slots a e owes here =
      writes o n t m known (claiming r) (paying slots (serving v r)) r.key r.home k
        (record h { shard = sh }) inside refl (Alters-Edits (pos 0) 0 a)
        (inl (refl, λ i other. ground (arith, a.items i other, a.order i other))) e
        (omega (arith, owes))
        (
          placed,
          ap (value_at o r.key) (get_or-set_self m.shards r.home sh empty_shard inside) ∙ here,
        )
        refl refl

  claim_map-Good : is_lru o ≡ false → Good o n t m (claiming r) (claim_turn visit o create fn m r)
  unfolding claim_turn claim
  claim_map-Good reject = elim (Option-cases (lookup r.key h.shard.items)) [
    | inr (e, here) ↦
        rw (reject, claim_turn, claim, here, claim_map)
          (claimed (touch_map r.key e r.now h).shard e.value 0 1
            (with_item-old r.key (seen_at r.now e) e h.shard sound here)
            (ground (arith, reject, empty_side)) refl
            (ground (
              arith,
              reject,
              lookup-insert r.key r.key (seen_at r.now e) h.shard.items,
              key_eq_self r.key,
            )))
    | inl gone ↦
        let e : KeyEntry A = record { value = create r.now; last_seen = r.now } in
        rw (reject, claim_turn, claim, gone, claim_map)
          (claimed (create_map r.key (create r.now) r.now h).shard (create r.now) 1 0
            (with_item-new r.key e h.shard sound gone) (ground (arith, reject, empty_side)) refl
            (ground (arith, reject, lookup-insert r.key r.key e h.shard.items, key_eq_self r.key)))
  ]

  claim_lru-Good : is_lru o ≡ true → Good o n t m (claiming r) (claim_turn visit o create fn m r)
  unfolding claim_turn claim entry_of
  claim_lru-Good lru = elim (Option-cases (entry_of r.key h.shard.order)) [
    | inr (e, here) ↦
        let index : lookup r.key h.shard.order_items ≡ some e.id =
          sound.synced r.key ∙ ap id_of here in
        let found : find_elem e.id h.shard.order ≡ some e =
          find_elem-entry_of r.key h.shard.order e sound.elems here in
        rw (lru, index, claim_turn, claim, found)
          (claimed (touch_lru e r.now h).shard e.entry.value 0 1
            (moved_front-Edits r.key e (moved_at r.now e) h.shard sound here refl refl)
            (ground (arith, lru, empty_side)) refl
            (ground (arith, lru, entry_of-key r.key h.shard.order e here, key_eq_self r.key)))
    | inl gone ↦
        let index : lookup r.key h.shard.order_items ≡ none = sound.synced r.key ∙ ap id_of gone in
        let e : Element A = record {
          id = h.shard.next_id;
          entry = record { key = r.key; value = create r.now; last_seen = r.now };
        } in
        rw (lru, index, claim_turn, claim)
          (claimed (create_lru r.key (create r.now) r.now h).shard (create r.now) 1 0
            (pushed_front-Edits e h.shard sound refl gone) (ground (arith, lru, empty_side)) refl
            (ground (arith, lru, key_eq_self r.key)))
  ]

  pub claim-Good : Good o n t m (claiming r) (claim_turn visit o create fn m r)
  claim-Good = elim (Bool-cases (is_lru o)) [
    | inl lru ↦ claim_lru-Good lru
    | inr reject ↦ claim_map-Good reject
  ]

  module _ (v : A) (here : value_at o r.key h.shard ≡ some v) where
    abbrev sh : Shard A
    sh = write_back o r.key (fn v r.now).0 h.shard

    written :
        Edits r.key h.shard sh 0
        → unused o sh ≡ 0
        → Effect o n t m (serving v r) (put m r.home (record h { shard = sh })) (leaving r)
    unfolding holds sweeps owed subject
    written a e =
        writes o n t m known (serving v r) (leaving r) r.key r.home 0 (record h { shard = sh })
          inside refl (Alters-Edits (pos 0) 0 a)
          (inl (refl, λ i other. ground (arith, a.items i other, a.order i other))) e (omega arith)
          placed refl refl

    pub serve-Good : Good o n t m (serving v r) (serve_turn visit o create fn m v r)
    unfolding serve_turn
    serve-Good = elim (Bool-cases (is_lru o)) [
      | inr reject ↦ elim (Option-cases (lookup r.key h.shard.items)) [
        | inl gone ↦ absurd (ground (arith, here, reject, gone))
        | inr (e, found) ↦
            let (a, b, c) = write_back-map o r.key (fn v r.now).0 e h.shard reject sound found in
            written a (ground (arith, empty_side, reject, c))
      ]
      | inl lru ↦ elim (Option-cases (entry_of r.key h.shard.order)) [
        | inl gone ↦ absurd (ground (arith, here, lru, gone))
        | inr (e, found) ↦
            let (a, b, c) = write_back-lru o r.key (fn v r.now).0 e h.shard lru sound found in
            written a (ground (arith, empty_side, lru, c))
      ]
    ]
