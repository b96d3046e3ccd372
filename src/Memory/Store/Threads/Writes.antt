-- ===== src/Memory/Store/Threads/Writes.antt =====
-- memory/sharded_store.go with goroutines: what the turns that make or update a state do to it.
use kaka.Prelude.{
  ℕ, ◌≡◌, ◌<◌, ap, ◌∙◌, ◌⊎◌, inl, inr, true, false, none, some, List, length, set, get_or-set_self,
  key_eq_self, lookup, lookup-insert, Bool-cases, Option-cases, arith,
}
use kaka.Core.{Key}
use kaka.Clock.{Time}
use kaka.Memory.Options.{Options}
use kaka.Memory.Shard.{Shard, KeyEntry, Held, empty_shard, find_elem}
use kaka.Memory.Shard.Lru.{entry_of, entry_of-key, find_elem-entry_of}
use kaka.Memory.Shard.Sound.{IsSound, id_of}
use kaka.Memory.Store.{is_lru, touch_map, touch_lru, create_map, create_lru, write_back}
use kaka.Memory.Store.Thins.{at}
use kaka.Memory.Store.Hits.{seen_at}
use kaka.Memory.Store.Access.{value_at}
use kaka.Memory.Store.Reserve.{at-IsSound}
use kaka.Memory.Store.Promise.{write_back-map, write_back-lru}
use kaka.Memory.Store.Threads.{
  Request, Shared, Turn, blocked, panicked, moved, local, claim, claim_map, claim_turn,
}
use kaka.Memory.Store.Threads.Effects.{Known}

module _ {A R : Type 0} (visit : Time → List (Key × KeyEntry A) → List (Key × KeyEntry A))
    (o : Options) (create : Time → A) (fn : A → Time → A × R) where
  module _ (n t : ℕ) (m : Shared A) (known : Known o n t m) (r : Request)
      (inside : r.home < length m.shards) where
    abbrev h : Held A
    h = local m r.home

    sound : IsSound h.shard
    sound = at-IsSound m.shards r.home known.sound inside

    pub stored :
        (sh : Shard A) → value_at o r.key (at (set m.shards r.home sh) r.home) ≡ value_at o r.key sh
    stored sh = ap (value_at o r.key) (get_or-set_self m.shards r.home sh empty_shard inside)

    -- The key's state stays, or it is made.
    abbrev pub Made : Turn A → Type 0
    Made blocked = Unit {0}
    Made panicked = Unit {0}
    Made (moved m' p') =
        (value_at o r.key (at m'.shards r.home) ≡ value_at o r.key (at m.shards r.home))
        ⊎ ((value_at o r.key (at m.shards r.home) ≡ none)
            × (value_at o r.key (at m'.shards r.home) ≡ some (create r.now)))

    claim_map-Made : is_lru o ≡ false → Made (claim_turn visit o create fn m r)
    unfolding claim_turn claim
    claim_map-Made reject = elim (Option-cases (lookup r.key h.shard.items)) [
      | inr (e, here) ↦
          rw (reject, claim_turn, claim, here, claim_map)
            (inl (
              ground (
                arith,
                reject,
                here,
                stored (touch_map r.key e r.now h).shard,
                lookup-insert r.key r.key (seen_at r.now e) h.shard.items,
                key_eq_self r.key,
              )))
      | inl gone ↦
          let e : KeyEntry A = record { value = create r.now; last_seen = r.now } in
          rw (reject, claim_turn, claim, gone, claim_map)
            (inr (
              ground (
                arith,
                reject,
                gone,
                stored (create_map r.key (create r.now) r.now h).shard,
                lookup-insert r.key r.key e h.shard.items,
                key_eq_self r.key,
              )))
    ]

    claim_lru-Made : is_lru o ≡ true → Made (claim_turn visit o create fn m r)
    unfolding claim_turn claim entry_of
    claim_lru-Made lru = elim (Option-cases (entry_of r.key h.shard.order)) [
      | inr (e, here) ↦
          let index : lookup r.key h.shard.order_items ≡ some e.id =
            sound.synced r.key ∙ ap id_of here in
          let found : find_elem e.id h.shard.order ≡ some e =
            find_elem-entry_of r.key h.shard.order e sound.elems here in
          rw (lru, index, claim_turn, claim, found)
            (inl (
              ground (
                arith,
                lru,
                here,
                stored (touch_lru e r.now h).shard,
                entry_of-key r.key h.shard.order e here,
                key_eq_self r.key,
              )))
      | inl gone ↦
          let index : lookup r.key h.shard.order_items ≡ none =
            sound.synced r.key ∙ ap id_of gone in
          rw (lru, index, claim_turn, claim)
            (inr (
              ground (
                arith,
                lru,
                gone,
                stored (create_lru r.key (create r.now) r.now h).shard,
                key_eq_self r.key,
              )))
    ]

    pub claim-Made : Made (claim_turn visit o create fn m r)
    claim-Made = elim (Bool-cases (is_lru o)) [
      | inl lru ↦ claim_lru-Made lru
      | inr reject ↦ claim_map-Made reject
    ]

    abbrev pub Replaces : A → Turn A → Type 0
    Replaces v blocked = Unit {0}
    Replaces v panicked = Unit {0}
    Replaces v (moved m' p') = value_at o r.key (at m'.shards r.home) ≡ some (fn v r.now).0

    -- `fn` replaces the state.
    pub serve-replaces :
        (v : A)
        → value_at o r.key h.shard ≡ some v
        → value_at o r.key (write_back o r.key (fn v r.now).0 h.shard) ≡ some (fn v r.now).0
    serve-replaces v here = elim (Bool-cases (is_lru o)) [
      | inr reject ↦ elim (Option-cases (lookup r.key h.shard.items)) [
        | inl gone ↦ absurd (ground (arith, here, reject, gone))
        | inr (e, found) ↦ (write_back-map o r.key (fn v r.now).0 e h.shard reject sound found).1
      ]
      | inl lru ↦ elim (Option-cases (entry_of r.key h.shard.order)) [
        | inl gone ↦ absurd (ground (arith, here, lru, gone))
        | inr (e, found) ↦ (write_back-lru o r.key (fn v r.now).0 e h.shard lru sound found).1
      ]
    ]
