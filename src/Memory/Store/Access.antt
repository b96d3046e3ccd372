-- ===== src/Memory/Store/Access.antt =====
-- memory/sharded_store.go, `getOrCreateMap` and `getOrCreateLRU`: the shared steps of both.
pub mod Map
pub mod Lru
use kaka.Prelude.{
  ℕ, zero, suc, ◌+◌, ◌≤◌, ◌<◌, ◌≡◌, refl, sym, ap, ◌∙◌, ◌⊎◌, inl, inr, ℤ, pos, pos_part, neg_part,
  ◌+ℤ◌, ◌≤ℤ◌, +ℤ_parts, eq_of_parts, Bool, true, false, Option, none, some, List, [], ◌∷◌, length,
  set, length-set, get_or-set_self, lookup, if◌then◌else◌, arith,
}
use kaka.Core.{Key}
use kaka.Clock.{Time}
use kaka.Memory.Options.{Options}
use kaka.Memory.Shard.{Shard, KeyEntry, Element, Held, size, empty_shard}
use kaka.Memory.Shard.Lru.{entry_of}
use kaka.Memory.Shard.Sound.{IsSound, Shrinks}
use kaka.Memory.Store.{Store, is_lru, held, put_back}
use kaka.Memory.Store.Thins.{AllSound, AllInMode, unused, total, at, Thins}
use kaka.Memory.Store.Reserve.{Exact, Reserved, at-IsSound}
use kaka.Memory.Store.Moves.{
  Alters, Alters-Shrinks, Moves, Moves-Thins, Moves-set, Spares, Spares-Moves, Spares-trans,
}

module _ {A : Type 0} where
  pub at-unused :
      (o : Options) (xs : List (Shard A)) (i : ℕ)
      → AllInMode o xs
      → i < length xs
      → unused o (at xs i) ≡ 0
  at-unused o [] i m h = absurd (omega arith)
  at-unused o (x ∷ xs) zero m h = m.0
  at-unused o (x ∷ xs) (suc i) m h = at-unused o xs i m.1 (omega arith)

  abbrev pub item_value : Option (KeyEntry A) → Option A
  item_value none = none
  item_value (some e) = some e.value

  abbrev pub elem_value : Option (Element A) → Option A
  elem_value none = none
  elem_value (some e) = some e.entry.value

  -- The state that a shard keeps for a key.
  abbrev pub value_at : Options → Key → Shard A → Option A
  value_at o key sh =
      if is_lru o then elem_value (entry_of key sh.order) else item_value (lookup key sh.items)

  -- A limit of zero is none.
  abbrev pub Bounded : Options → Store A → Type 0
  Bounded o s = (o.max_keys ≤ℤ pos 0) ⊎ (s.live ≤ℤ o.max_keys)

module _ {A : Type 0} (visit : Time → List (Key × KeyEntry A) → List (Key × KeyEntry A))
    (o : Options) (create : Time → A) (now : Time) (key : Key) (i : ℕ) where
  -- The key's state `u` is in the store `t`, as it was in `s` or just created.
  pub record Accessed (s t : Store A) (u : A) : Type 0 where
    pub exact : Exact visit o now i t
    pub bounded : Bounded o t
    pub spares : Spares key s.shards t.shards
    pub here : value_at o key (at t.shards i) ≡ some u
    pub origin :
        (value_at o key (at s.shards i) ≡ some u)
        ⊎ ((value_at o key (at s.shards i) ≡ none) × (u ≡ create now))

  pub record Refused (s t : Store A) : Type 0 where
    pub exact : Exact visit o now i t
    pub spares : Spares key s.shards t.shards
    pub mode : is_lru o ≡ false
    pub full : t.live ≡ o.max_keys
    pub before : value_at o key (at s.shards i) ≡ none
    pub after : value_at o key (at t.shards i) ≡ none

  abbrev pub Settled : Store A → Option (Store A × Option A) → Type 0
  Settled s r =
      ((t : Store A) × (u : A) × (r ≡ some (t, some u)) × Accessed s t u)
      ⊎ ((t : Store A) × (r ≡ some (t, none)) × Refused s t)

  -- A shard is put back altered, with no key more.
  pub record Put (s t : Store A) : Type 0 where
    pub exact : Exact visit o now i t
    pub bounded : Bounded o s → Bounded o t
    pub spares : Spares key s.shards t.shards

  pub alter_step :
      (s : Store A) (g : Held A)
      → Exact visit o now i s
      → Alters key (held s i) g 0
      → unused o g.shard ≡ 0
      → Put s (put_back s i g)
  alter_step s g e a p =
      let m = Moves-set o key s.shards i g s.live s.evicts 0 e.in_range e.sound e.mode p a in
      let live : g.live ≡ pos (total (set s.shards i g.shard)) =
        eq_of_parts _ _ (ground (arith, m.counted, e.live)) in
      record {
        exact = record {
          sound = m.sound;
          mode = m.mode;
          live = live;
          in_range = omega (arith, e.in_range, m.as_many);
        };
        bounded = λ b. ground (arith, b, live, e.live, m.smaller);
        spares = Spares-Moves m;
      }

  -- A key takes the slot that was reserved for it.
  pub creation_step :
      (s t : Store A) (g : Held A)
      → Exact visit o now i s
      → Reserved visit o now i s t true
      → Alters key (held t i) g 1
      → g.live ≡ t.live
      → unused o g.shard ≡ 0
      → Exact visit o now i (put_back t i g)
        × Bounded o (put_back t i g)
        × Spares key s.shards (put_back t i g).shards
  creation_step s t g e r a same p =
      let inside : i < length t.shards = omega (arith, e.in_range, r.thins.as_many) in
      let m =
        Moves-set o key t.shards i g t.live t.evicts 1 inside r.thins.sound r.thins.mode p a in
      (
        record {
          sound = m.sound;
          mode = m.mode;
          live = eq_of_parts _ _ (
              ground (
                arith,
                m.counted,
                r.thins.counted,
                e.live,
                same,
                r.paid,
                +ℤ_parts r.spare (pos 1),
              ));
          in_range = omega (arith, inside, m.as_many);
        },
        ground (arith, r.within, same),
        Spares-trans (Spares-Moves (Moves-Thins key r.thins)) (Spares-Moves m),
      )
