-- ===== src/Memory/Store/Promise.antt =====
-- memory/sharded_store.go, `withState`: what the store promises to the limiters. Seen from outside the
-- store is a partial map from keys to states; a request updates its own key, and may lose others.
pub mod Fresh
pub mod Stays
pub mod Again
use kaka.Prelude.{
  ℕ, zero, suc, ◌+◌, ◌^◌, ◌<◌, ◌≡◌, refl, sym, ap, ◌∙◌, ◌⊎◌, inl, inr, ℤ, pos, ◌≤ℤ◌, Bool, true,
  false, Option, none, some, List, length, set, get_or-set_self, key_eq, key_eq_self, lookup,
  lookup-insert, if◌then◌else◌, Option-cases, Bool-cases, arith,
}
use mathlib.Core.Path.{subst}
use kaka.Core.{Key}
use kaka.Clock.{Time}
use kaka.Memory.Options.{Options}
use kaka.Memory.Hash.{shard_for}
use kaka.Memory.Hash.Range.{shard_for-mod}
use kaka.Memory.Shard.{Shard, KeyEntry, Element, Held, empty_shard, find_elem, write_elem}
use kaka.Memory.Shard.Lru.{entry_of, entry_of-key, find_elem-entry_of}
use kaka.Memory.Shard.Sound.{IsSound, id_of}
use kaka.Memory.Shard.Cleaning.{Ranges}
use kaka.Memory.Shard.Writes.{entry_of-write_elem, length-write_elem}
use kaka.Memory.Shard.Edits.{Edits, with_item-old, written-Edits}
use kaka.Memory.Store.{
  Store, Verdict, ran, max_keys_reached, is_lru, held, put_back, write_back, write_store,
  find_or_create, with_state,
}
use kaka.Memory.Store.Thins.{AllSound, AllInMode, unused, total, at}
use kaka.Memory.Store.Reserve.{Exact, at-IsSound}
use kaka.Memory.Store.Moves.{Alters-Edits, Spares, Spares-trans}
use kaka.Memory.Store.Access.{
  at-unused, value_at, Bounded, Accessed, Refused, Settled, Put, alter_step,
}
use kaka.Memory.Store.Access.Map.{get_or_create_map-Settled}
use kaka.Memory.Store.Access.Lru.{get_or_create_lru-Settled}

module _ {A : Type 0} (o : Options) where
  -- The state that the store keeps for a key.
  abbrev pub peek : Store A → Key → Option A
  peek s k = value_at o k (at s.shards (shard_for (length s.shards) k))

  -- The store's invariant: its shards are sound, the counter is the number of keys, and it is within
  -- the limit.
  pub record Valid (s : Store A) : Type 0 where
    pub sound : AllSound s.shards
    pub mode : AllInMode o s.shards
    pub live : s.live ≡ pos (total s.shards)
    pub power : (k : ℕ) × (length s.shards ≡ 2 ^ k)
    pub bounded : Bounded o s

  -- A write through the state pointer of a key that the shard has.
  pub write_back-map :
      (key : Key) (w : A) (e : KeyEntry A) (sh : Shard A)
      → is_lru o ≡ false
      → IsSound sh
      → lookup key sh.items ≡ some e
      → Edits key sh (write_back o key w sh) 0
        × (value_at o key (write_back o key w sh) ≡ some w)
        × ((write_back o key w sh).order ≡ sh.order)
  unfolding write_back
  write_back-map key w e sh reject s here =
      rw (reject, here, write_back)
        (
          with_item-old key (record e { value = w }) e sh s here,
          ground (arith, lookup-insert key key (record e { value = w }) sh.items, key_eq_self key),
          refl,
        )

  pub write_back-lru :
      (key : Key) (w : A) (e : Element A) (sh : Shard A)
      → is_lru o ≡ true
      → IsSound sh
      → entry_of key sh.order ≡ some e
      → Edits key sh (write_back o key w sh) 0
        × (value_at o key (write_back o key w sh) ≡ some w)
        × ((write_back o key w sh).items ≡ sh.items)
  unfolding write_back
  write_back-lru key w e sh lru s here =
      let index : lookup key sh.order_items ≡ some e.id = s.synced key ∙ ap id_of here in
      let found = find_elem-entry_of key sh.order e s.elems here in
      rw (lru, index, write_back)
        (
          written-Edits key w e sh s here,
          ground (
            arith,
            entry_of-write_elem e.id w key sh.order e s.elems found,
            entry_of-key key sh.order e here,
            key_eq_self key,
          ),
          refl,
        )

module _ {A : Type 0} (visit : Time → List (Key × KeyEntry A) → List (Key × KeyEntry A))
    (o : Options) (create : Time → A) (now : Time) (key : Key) where
  module _ (i : ℕ) (t : Store A) (u w : A) (exact : Exact visit o now i t)
      (here : value_at o key (at t.shards i) ≡ some u) where
    abbrev cell : Shard A
    cell = at t.shards i

    abbrev written_held : Held A
    written_held = record (held t i) { shard = write_back o key w cell }

    -- What a write leaves, whatever the mode.
    abbrev Written : Type 0
    Written =
        Edits key cell (write_back o key w cell) 0
        × (value_at o key (write_back o key w cell) ≡ some w)
        × (unused o (write_back o key w cell) ≡ 0)

    write_back-Written : Written
    write_back-Written =
        let sound = at-IsSound t.shards i exact.sound exact.in_range in
        let empty = at-unused o t.shards i exact.mode exact.in_range in
        elim (Bool-cases (is_lru o)) [
          | inr reject ↦ elim (Option-cases (lookup key cell.items)) [
            | inl gone ↦ absurd (ground (arith, here, reject, gone))
            | inr (e, found) ↦
                let (a, b, c) = write_back-map o key w e cell reject sound found in
                (a, b, ground (arith, empty, reject, c))
          ]
          | inl lru ↦ elim (Option-cases (entry_of key cell.order)) [
            | inl gone ↦ absurd (ground (arith, here, lru, gone))
            | inr (e, found) ↦
                let (a, b, c) = write_back-lru o key w e cell lru sound found in
                (a, b, ground (arith, empty, lru, c))
          ]
        ]

    write_store-Put : Put visit o create now key i t (write_store visit o create now i key w t)
    write_store-Put =
        let (edits, value, empty) = write_back-Written in
        alter_step visit o create now key i t written_held exact
          (Alters-Edits t.live t.evicts edits) empty

    write_store-here :
        value_at o key (at (write_store visit o create now i key w t).shards i) ≡ some w
    write_store-here =
        let (edits, value, empty) = write_back-Written in
        ap (value_at o key)
          (get_or-set_self t.shards i (write_back o key w cell) empty_shard exact.in_range)
        ∙ value

module _ {A : Type 0} (o : Options) (s t : Store A) where
  peek-at :
      (k : Key)
      → length t.shards ≡ length s.shards
      → peek o t k ≡ value_at o k (at t.shards (shard_for (length s.shards) k))
  peek-at k e = ap (λ n. value_at o k (at t.shards (shard_for n k))) e

  -- What the others see.
  peek-Spares :
      (key j : Key)
      → Spares key s.shards t.shards
      → key_eq key j ≡ false
      → (peek o t j ≡ none) ⊎ (peek o t j ≡ peek o s j)
  peek-Spares key j a other =
      let i = shard_for (length s.shards) j in
      rw (peek-at j a.as_many) (ground (arith, a.items i j other, a.order i j other))

module _ {A R : Type 0} (visit : Time → List (Key × KeyEntry A) → List (Key × KeyEntry A))
    (o : Options) (create : Time → A) (now : Time) (fn : A → Time → A × R) (key : Key) where
  -- `fn` ran on the key's state, or on a new one if the key had none, and its result is kept.
  pub record Ran (s t : Store A) (v : Verdict R) : Type 0 where
    pub before : A
    pub verdict : v ≡ ran (fn before now).1
    pub origin : (peek o s key ≡ some before) ⊎ ((peek o s key ≡ none) × (before ≡ create now))
    pub after : peek o t key ≡ some (fn before now).0

  -- A new key was refused, in EvictReject mode, with the store full.
  pub record Full (s t : Store A) (v : Verdict R) : Type 0 where
    pub verdict : v ≡ max_keys_reached
    pub mode : is_lru o ≡ false
    pub full : t.live ≡ o.max_keys
    pub new : peek o s key ≡ none
    pub still_new : peek o t key ≡ none

  pub record Promised (s t : Store A) (v : Verdict R) : Type 0 where
    pub valid : Valid o t
    pub outcome : Ran s t v ⊎ Full s t v
    pub others : (j : Key) → key_eq key j ≡ false → (peek o t j ≡ none) ⊎ (peek o t j ≡ peek o s j)

  abbrev pub Keeps : Store A → Option (Store A × Verdict R) → Type 0
  Keeps s r = (t : Store A) × (v : Verdict R) × (r ≡ some (t, v)) × Promised s t v

  module _ (s : Store A) (valid : Valid o s) where
    abbrev i : ℕ
    i = shard_for (length s.shards) key

    s-Exact : Exact visit o now i s
    s-Exact =
        let (k, e) = valid.power in
        record {
          sound = valid.sound;
          mode = valid.mode;
          live = valid.live;
          in_range = (shard_for-mod (length s.shards) k key e).1;
        }

    after-Valid :
        {t : Store A}
        → Exact visit o now i t
        → Bounded o t
        → Spares key s.shards t.shards
        → Valid o t
    after-Valid {t} e b a = record {
      sound = e.sound;
      mode = e.mode;
      live = e.live;
      power = (valid.power.0, a.as_many ∙ valid.power.1);
      bounded = b;
    }

    find_or_create-Settled :
        Ranges (visit now)
        → Settled visit o create now key i s (find_or_create visit o create now i key s)
    unfolding find_or_create
    find_or_create-Settled ranges = elim (Bool-cases (is_lru o)) [
      | inl lru ↦
          rw (lru, find_or_create)
            (get_or_create_lru-Settled visit o create now key i s s-Exact valid.bounded lru)
      | inr reject ↦
          rw (reject, find_or_create)
            (get_or_create_map-Settled visit o create now key i ranges s s-Exact valid.bounded
              reject)
    ]

    ran-Promised :
        (t : Store A) (u : A)
        → Accessed visit o create now key i s t u
        → Promised s (write_store visit o create now i key (fn u now).0 t) (ran (fn u now).1)
    ran-Promised t u a =
        let w = (fn u now).0 in
        let p = write_store-Put visit o create now key i t u w a.exact a.here in
        let spares = Spares-trans a.spares p.spares in
        record {
          valid = after-Valid p.exact (p.bounded a.bounded) spares;
          outcome = inl (record {
            before = u;
            verdict = refl;
            origin = a.origin;
            after =
                peek-at o s (write_store visit o create now i key w t) key spares.as_many
                ∙ write_store-here visit o create now key i t u w a.exact a.here;
          });
          others = λ j other.
              peek-Spares o s (write_store visit o create now i key w t) key j spares other;
        }

    Refused-Promised :
        (t : Store A) → Refused visit o create now key i s t → Promised s t max_keys_reached
    Refused-Promised t a = record {
      valid = after-Valid a.exact (inr (ground (arith, a.full))) a.spares;
      outcome = inr (record {
        verdict = refl;
        mode = a.mode;
        full = a.full;
        new = a.before;
        still_new = peek-at o s t key a.spares.as_many ∙ a.after;
      });
      others = λ j other. peek-Spares o s t key j a.spares other;
    }

    -- On a valid store a request is always answered, and leaves a valid store. The function runs on
    -- the key's own state, or on a new one if the key had none, and its result is what the store
    -- keeps; or the key is new and is refused, which happens in EvictReject mode alone, and only if
    -- as many keys are stored as the limit allows. Other keys keep their states, or are removed.
    -- (The runtime ranges over entries of the map, in any order.)
    pub with_state-Promised : Ranges (visit now) → Keeps s (with_state visit o create now fn key s)
    unfolding with_state
    with_state-Promised ranges = elim (find_or_create-Settled ranges) [
      | inl (t, u, e, a) ↦ (_, _, rw (e, with_state), ran-Promised t u a)
      | inr (t, e, a) ↦ (t, max_keys_reached, rw (e, with_state), Refused-Promised t a)
    ]
