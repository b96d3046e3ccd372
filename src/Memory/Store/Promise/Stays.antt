-- ===== src/Memory/Store/Promise/Stays.antt =====
-- memory/sharded_store.go without a TTL and in EvictReject mode, which are the defaults: no key that the
-- store has is ever removed.
use kaka.Prelude.{
  ℕ, zero, suc, ◌≡◌, refl, ap, ◌∙◌, inl, inr, pos, Bool, true, false, Option, none, some, List, [],
  ◌∷◌, length, set, length-set, key_eq, lookup, insert, lookup-insert, leb_ℤ, ltb_ℤ, Option-cases,
  Bool-cases, arith,
}
use mathlib.Core.Path.{subst}
use kaka.Core.{Key}
use kaka.Clock.{Time}
use kaka.Memory.Options.{Options}
use kaka.Memory.Hash.{shard_for}
use kaka.Memory.Shard.{Shard, KeyEntry, Held, cleanup_off, cleanup_map}
use kaka.Memory.Store.{
  Store, Verdict, is_lru, held, put_back, touch_map, create_map, release_slot, write_back,
  write_store, sweep_expired, reserve_from, reserve_slot, settle_map, get_or_create_map,
  find_or_create, with_state,
}
use kaka.Memory.Store.Thins.{at}
use kaka.Memory.Store.Promise.{peek}

module _ {A : Type 0} (key : Key) where
  -- Other keys' entries stay.
  record Stays (xs ys : List (Shard A)) : Type 0 where
    as_many : length ys ≡ length xs
    items :
        (i : ℕ) (j : Key)
        → key_eq key j ≡ false
        → lookup j (at ys i).items ≡ lookup j (at xs i).items

  Stays-refl : {xs ys : List (Shard A)} → ys ≡ xs → Stays xs ys
  Stays-refl e = record {
    as_many = ap length e;
    items = λ i j other. ap (λ l. lookup j (at l i).items) e;
  }

  Stays-trans : {xs ys zs : List (Shard A)} → Stays xs ys → Stays ys zs → Stays xs zs
  Stays-trans a b = record {
    as_many = b.as_many ∙ a.as_many;
    items = λ i j other. b.items i j other ∙ a.items i j other;
  }

  items_set :
      (xs : List (Shard A)) (i k : ℕ) (j : Key) (sh : Shard A)
      → lookup j sh.items ≡ lookup j (at xs i).items
      → lookup j (at (set xs i sh) k).items ≡ lookup j (at xs k).items
  items_set [] i k j sh e = refl
  items_set (x ∷ xs) zero zero j sh e = e
  items_set (x ∷ xs) zero (suc k) j sh e = refl
  items_set (x ∷ xs) (suc i) zero j sh e = refl
  items_set (x ∷ xs) (suc i) (suc k) j sh e = items_set xs i k j sh e

  Stays-set :
      (xs : List (Shard A)) (i : ℕ) (sh : Shard A)
      → ((j : Key) → key_eq key j ≡ false → lookup j sh.items ≡ lookup j (at xs i).items)
      → Stays xs (set xs i sh)
  Stays-set xs i sh h = record {
    as_many = length-set xs i sh;
    items = λ k j other. items_set xs i k j sh (h j other);
  }

  -- An entry of the key itself is written.
  Stays-insert :
      (xs : List (Shard A)) (i : ℕ) (e : KeyEntry A) (sh : Shard A)
      → sh.items ≡ insert key e (at xs i).items
      → Stays xs (set xs i sh)
  Stays-insert xs i e sh same =
      Stays-set xs i sh
        (λ j other. ground (arith, same, lookup-insert key j e (at xs i).items, other))

  -- What is left, if anything is.
  abbrev Leaves : {B : Type 0} → List (Shard A) → Option (Store A × B) → Type 0
  Leaves xs none = Unit {0}
  Leaves xs (some (t, v)) = Stays xs t.shards

module _ {A : Type 0} (visit : Time → List (Key × KeyEntry A) → List (Key × KeyEntry A))
    (o : Options) (create : Time → A) (now : Time) (key : Key) (off : cleanup_off o ≡ true)
    (reject : is_lru o ≡ false) where
  sweep_expired_off : (s : Store A) → sweep_expired visit o now s ≡ s
  unfolding sweep_expired
  sweep_expired_off s = rw (off, sweep_expired) refl

  cleanup_map_off : (h : Held A) → cleanup_map visit o now h ≡ h
  unfolding cleanup_map
  cleanup_map_off h = rw (off, cleanup_map) refl

  reserve_from-Stays :
      (fuel i : ℕ) (swept : Bool) (s : Store A)
      → Leaves key s.shards (reserve_from visit o now fuel i swept s)
  unfolding reserve_from
  reserve_from-Stays zero i swept s = tt
  reserve_from-Stays (suc fuel) i swept s = elim (Bool-cases (ltb_ℤ s.live o.max_keys)) [
    | inl room ↦ rw (room, reserve_from) (Stays-refl key refl)
    | inr full ↦ elim (Bool-cases swept) [
      | inl again ↦ rw (full, reject, again, reserve_from) (Stays-refl key refl)
      | inr first ↦
          rw (full, reject, first, sweep_expired_off s, reserve_from)
            (reserve_from-Stays fuel i true s)
    ]
  ]

  reserve_slot-Stays : (i : ℕ) (s : Store A) → Leaves key s.shards (reserve_slot visit o now i s)
  unfolding reserve_slot
  reserve_slot-Stays i s = elim (Bool-cases (leb_ℤ o.max_keys (pos 0))) [
    | inl unlimited ↦ rw (unlimited, reserve_slot) (Stays-refl key refl)
    | inr limited ↦ rw (limited, reserve_slot) (reserve_from-Stays 3 i false s)
  ]

  -- A shard is put back with an entry of the key.
  put_back-Stays :
      (i : ℕ) (e : KeyEntry A) (s : Store A) (g : Held A)
      → g.shard.items ≡ insert key e (at s.shards i).items
      → Stays key s.shards (put_back s i g).shards
  put_back-Stays i e s g same = Stays-insert key s.shards i e g.shard same

  settle_map-Stays :
      (i : ℕ) (s : Store A) → Stays key s.shards (settle_map visit o create now i key s).0.shards
  unfolding settle_map
  settle_map-Stays i s = elim (Option-cases (lookup key (at s.shards i).items)) [
    | inl gone ↦
        rw (gone, settle_map)
          (put_back-Stays i (record { value = create now; last_seen = now }) s
            (create_map key (create now) now (held s i)) refl)
    | inr (e, here) ↦
        rw (here, settle_map)
          (put_back-Stays i (record e { last_seen = now }) s
            (touch_map key e now (release_slot (held s i))) refl)
  ]

  cleaned-Stays :
      (i : ℕ) (s : Store A)
      → Stays key s.shards (put_back s i (cleanup_map visit o now (held s i))).shards
  cleaned-Stays i s =
      rw (cleanup_map_off (held s i)) (Stays-set key s.shards i (at s.shards i) (λ j other. refl))

  get_or_create_map-Stays :
      (i : ℕ) (s : Store A) → Leaves key s.shards (get_or_create_map visit o create now i key s)
  unfolding get_or_create_map
  get_or_create_map-Stays i s = elim (Option-cases (lookup key (at s.shards i).items)) [
    | inr (e, here) ↦
        rw (here, get_or_create_map, cleanup_map_off (touch_map key e now (held s i)))
          (put_back-Stays i (record e { last_seen = now }) s (touch_map key e now (held s i)) refl)
    | inl gone ↦
        let looked = put_back s i (cleanup_map visit o now (held s i)) in
        elim (Option-cases (reserve_slot visit o now i looked)) [
          | inl stuck ↦ rw (gone, get_or_create_map, stuck) tt
          | inr ((t, granted), e) ↦
              let reserved : Stays key looked.shards t.shards =
                subst (Leaves key looked.shards) e (reserve_slot-Stays i looked) in
              let so_far = Stays-trans key (cleaned-Stays i s) reserved in
              elim (Bool-cases granted) [
                | inl room ↦
                    rw (gone, get_or_create_map, e, room)
                      (Stays-trans key so_far (settle_map-Stays i t))
                | inr full ↦ rw (gone, get_or_create_map, e, full) so_far
              ]
        ]
  ]

  write_store-Stays :
      (i : ℕ) (w : A) (s : Store A)
      → Stays key s.shards (write_store visit o create now i key w s).shards
  unfolding write_back
  write_store-Stays i w s = elim (Option-cases (lookup key (at s.shards i).items)) [
    | inl gone ↦
        rw (reject, write_back, gone) (Stays-set key s.shards i (at s.shards i) (λ j other. refl))
    | inr (e, here) ↦
        rw (reject, write_back, here)
          (Stays-insert key s.shards i (record e { value = w })
            (record (at s.shards i) {
              items = insert key (record e { value = w }) (at s.shards i).items;
            })
            refl)
  ]

  module _ {R : Type 0} (fn : A → Time → A × R) where
    with_state-Stays : (s : Store A) → Leaves key s.shards (with_state visit o create now fn key s)
    unfolding with_state find_or_create
    with_state-Stays s =
        let i = shard_for (length s.shards) key in
        let first = get_or_create_map-Stays i s in
        elim (Option-cases (get_or_create_map visit o create now i key s)) [
          | inl stuck ↦ rw (reject, with_state, stuck) tt
          | inr ((t, none), e) ↦ rw (reject, with_state, e) (subst (Leaves key s.shards) e first)
          | inr ((t, some v), e) ↦
              rw (reject, with_state, e)
                (Stays-trans key (subst (Leaves key s.shards) e first)
                  (write_store-Stays i (fn v now).0 t))
        ]

    -- Without a TTL and in EvictReject mode a request for one key leaves the states of the others alone.
    pub with_state-peek :
        (s t : Store A) (v : Verdict R) (j : Key)
        → with_state visit o create now fn key s ≡ some (t, v)
        → key_eq key j ≡ false
        → peek o t j ≡ peek o s j
    with_state-peek s t v j e other =
        let a : Stays key s.shards t.shards = subst (Leaves key s.shards) e (with_state-Stays s) in
        rw (a.as_many) (ground (arith, reject, a.items (shard_for (length s.shards) j) j other))
