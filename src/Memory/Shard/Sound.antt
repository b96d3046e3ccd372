-- ===== src/Memory/Shard/Sound.antt =====
-- memory/sharded_store.go, the invariant of a shard, and what a removal under its lock may do.
use kaka.Prelude.{
  ℕ, ◌+◌, ◌≤◌, ◌≡◌, refl, ap, ◌∙◌, ◌⊎◌, inl, inr, ℤ, pos, pos_part, neg_part, ◌-ℤ◌, -ℤ_parts,
  Option, none, some, length, key_eq, key_eq_iff, lookup, delete, Distinct, length-delete,
  lookup-delete_ne, lookup-delete_self, delete-Distinct, Bool-cases, arith,
}
use kaka.Core.{Key}
use kaka.Memory.Shard.{Shard, Held, KeyEntry, Element, size, remove_elem, find_elem}
use kaka.Memory.Shard.Lru.{
  entry_of, DistinctElems, Below, entry_of-find_elem, length-remove_elem, entry_of-remove_elem,
  remove_elem-Below, remove_elem-DistinctElems,
}

abbrev pub id_of : {A : Type 0} → Option (Element A) → Option ℕ
id_of none = none
id_of (some e) = some e.id

pub or_none_trans {ℓ} :
    {B : Type ℓ} (x y z : Option B)
    → (y ≡ none) ⊎ (y ≡ x)
    → (z ≡ none) ⊎ (z ≡ y)
    → (z ≡ none) ⊎ (z ≡ x)
or_none_trans x y z p (inl q) = inl q
or_none_trans x y z (inl p) (inr q) = inl (q ∙ p)
or_none_trans x y z (inr p) (inr q) = inr (q ∙ p)

module _ {A : Type 0} where
  -- In either mode no key is stored twice, and in EvictLRU mode the index maps a key to the pointer of
  -- its element, and no other key to any.
  pub record IsSound (sh : Shard A) : Type 0 where
    pub keys : Distinct sh.items
    pub index : Distinct sh.order_items
    pub elems : DistinctElems sh.order
    pub fresh : Below sh.next_id sh.order
    pub synced : (k : Key) → lookup k sh.order_items ≡ id_of (entry_of k sh.order)

  -- The counter of live keys moves by exactly as much as the number of keys.
  abbrev pub Counted : Held A → Held A → Type 0
  Counted h g =
      pos_part g.live + neg_part h.live + size h.shard
      ≡ neg_part g.live + pos_part h.live + size g.shard

  -- `g` comes from `h` by removing keys.
  pub record Shrinks (h g : Held A) : Type 0 where
    pub sound : IsSound g.shard
    pub counted : Counted h g
    pub fewer_items : length g.shard.items ≤ length h.shard.items
    pub fewer_elems : length g.shard.order ≤ length h.shard.order
    pub items :
        (k : Key)
        → (lookup k g.shard.items ≡ none) ⊎ (lookup k g.shard.items ≡ lookup k h.shard.items)
    pub order :
        (k : Key)
        → (entry_of k g.shard.order ≡ none) ⊎ (entry_of k g.shard.order ≡ entry_of k h.shard.order)

  pub Shrinks-refl : (h : Held A) → IsSound h.shard → Shrinks h h
  Shrinks-refl h s = record {
    sound = s;
    counted = omega arith;
    fewer_items = omega arith;
    fewer_elems = omega arith;
    items = λ k. inr refl;
    order = λ k. inr refl;
  }

  pub Shrinks-trans : {f g h : Held A} → Shrinks f g → Shrinks g h → Shrinks f h
  Shrinks-trans {f} {g} {h} a b = record {
    sound = b.sound;
    counted = omega (arith, a.counted, b.counted);
    fewer_items = omega (arith, a.fewer_items, b.fewer_items);
    fewer_elems = omega (arith, a.fewer_elems, b.fewer_elems);
    items = λ k. or_none_trans _ _ _ (a.items k) (b.items k);
    order = λ k. or_none_trans _ _ _ (a.order k) (b.order k);
  }

  -- A key's entry and its counter go together.
  abbrev pub without_key : Key → Held A → Held A
  without_key k h = record h {
    shard = record (h.shard) { items = delete k h.shard.items };
    live = h.live -ℤ pos 1;
  }

  pub without_key-Shrinks :
      (k : Key) (h : Held A) (e : KeyEntry A)
      → IsSound h.shard
      → lookup k h.shard.items ≡ some e
      → Shrinks h (without_key k h)
  without_key-Shrinks k h e s found = record {
    sound = record {
      keys = delete-Distinct k h.shard.items s.keys;
      index = s.index;
      elems = s.elems;
      fresh = s.fresh;
      synced = s.synced;
    };
    counted = omega (arith, -ℤ_parts h.live (pos 1), length-delete k e h.shard.items found);
    fewer_items = omega (arith, length-delete k e h.shard.items found);
    fewer_elems = omega arith;
    items = λ j. elim (Bool-cases (key_eq k j)) [
      | inl same ↦ inl (ground (arith, key_eq_iff k j, lookup-delete_self k h.shard.items s.keys))
      | inr other ↦ inr (lookup-delete_ne k j h.shard.items other)
    ];
    order = λ j. inr refl;
  }

  abbrev pub without_elem : Element A → Shard A → Shard A
  without_elem e sh = record sh {
    order_items = delete e.entry.key sh.order_items;
    order = remove_elem e.id sh.order;
  }

  module _ (e : Element A) (sh : Shard A) (s : IsSound sh)
      (found : find_elem e.id sh.order ≡ some e) where
    -- The index has the element's key.
    pub indexed : lookup e.entry.key sh.order_items ≡ some e.id
    indexed = s.synced e.entry.key ∙ ap id_of (entry_of-find_elem e.id sh.order e s.elems found)

    without_elem-synced :
        (k : Key)
        → lookup k (delete e.entry.key sh.order_items)
          ≡ id_of (entry_of k (remove_elem e.id sh.order))
    without_elem-synced k = rw (entry_of-remove_elem e.id k sh.order e s.elems found) (
        ground (
          arith,
          s.synced k,
          key_eq_iff e.entry.key k,
          lookup-delete_ne e.entry.key k sh.order_items,
          lookup-delete_self e.entry.key sh.order_items s.index,
        ))

    pub without_elem-IsSound : IsSound (without_elem e sh)
    without_elem-IsSound = record {
      keys = s.keys;
      index = delete-Distinct e.entry.key sh.order_items s.index;
      elems = remove_elem-DistinctElems e.id sh.order s.elems;
      fresh = remove_elem-Below sh.next_id e.id sh.order s.fresh;
      synced = without_elem-synced;
    }

    pub without_elem-Shrinks :
        (live : ℤ) (evicts evicts' : ℕ)
        → Shrinks
            (record { shard = sh; live = live; evicts = evicts })
            (record { shard = without_elem e sh; live = live -ℤ pos 1; evicts = evicts' })
    without_elem-Shrinks live evicts evicts' = record {
      sound = without_elem-IsSound;
      counted = omega (arith, -ℤ_parts live (pos 1), length-remove_elem e.id sh.order e found);
      fewer_items = omega arith;
      fewer_elems = omega (arith, length-remove_elem e.id sh.order e found);
      items = λ k. inr refl;
      order = λ k. ground (arith, entry_of-remove_elem e.id k sh.order e s.elems found);
    }
