-- ===== src/Memory/Shard/Edits.antt =====
-- memory/sharded_store.go: what `getOrCreateMap`, `getOrCreateLRU` and a limiter's write through the
-- state pointer do to the entry of one key.
use kaka.Prelude.{
  ℕ, suc, ◌+◌, ◌≡◌, refl, false, none, some, List, [], ◌∷◌, key_eq, key_eq_iff, lookup, insert,
  lookup-insert, length-insert-new, length-insert-old, insert-Distinct, arith,
}
use kaka.Core.{Key}
use kaka.Memory.Shard.{Shard, KeyEntry, Element, size, find_elem, remove_elem, write_elem}
use kaka.Memory.Shard.Lru.{
  entry_of, Below, find_elem-entry_of, entry_of-key, find_elem-fresh, length-remove_elem,
  entry_of-remove_elem, find_elem-remove_elem, remove_elem-Below, remove_elem-DistinctElems,
}
use kaka.Memory.Shard.Writes.{
  write_elem-DistinctElems, write_elem-Below, length-write_elem, entry_of-write_elem,
}
use kaka.Memory.Shard.Sound.{IsSound}

module _ {A : Type 0} where
  -- The entry of `key` changes, and `n` keys are new.
  pub record Edits (key : Key) (sh sh' : Shard A) (n : ℕ) : Type 0 where
    pub sound : IsSound sh'
    pub grown : size sh' ≡ size sh + n
    pub items : (j : Key) → key_eq key j ≡ false → lookup j sh'.items ≡ lookup j sh.items
    pub order : (j : Key) → key_eq key j ≡ false → entry_of j sh'.order ≡ entry_of j sh.order

  abbrev pub with_item : Key → KeyEntry A → Shard A → Shard A
  with_item key e sh = record sh { items = insert key e sh.items }

  with_item-IsSound :
      (key : Key) (e : KeyEntry A) (sh : Shard A) → IsSound sh → IsSound (with_item key e sh)
  with_item-IsSound key e sh s = record {
    keys = insert-Distinct key e sh.items s.keys;
    index = s.index;
    elems = s.elems;
    fresh = s.fresh;
    synced = s.synced;
  }

  pub with_item-old :
      (key : Key) (e f : KeyEntry A) (sh : Shard A)
      → IsSound sh
      → lookup key sh.items ≡ some f
      → Edits key sh (with_item key e sh) 0
  with_item-old key e f sh s here = record {
    sound = with_item-IsSound key e sh s;
    grown = omega (arith, length-insert-old key e f sh.items here);
    items = λ j other. ground (arith, lookup-insert key j e sh.items);
    order = λ j other. refl;
  }

  pub with_item-new :
      (key : Key) (e : KeyEntry A) (sh : Shard A)
      → IsSound sh
      → lookup key sh.items ≡ none
      → Edits key sh (with_item key e sh) 1
  with_item-new key e sh s gone = record {
    sound = with_item-IsSound key e sh s;
    grown = omega (arith, length-insert-new key e sh.items gone);
    items = λ j other. ground (arith, lookup-insert key j e sh.items);
    order = λ j other. refl;
  }

  -- The element `e` in front, in the place of the one with its pointer.
  abbrev pub moved_front : Element A → Shard A → Shard A
  moved_front e sh = record sh { order = e ∷ remove_elem e.id sh.order }

  pub moved_front-Edits :
      (key : Key) (e e' : Element A) (sh : Shard A)
      → IsSound sh
      → entry_of key sh.order ≡ some e
      → e'.id ≡ e.id
      → e'.entry.key ≡ e.entry.key
      → Edits key sh (moved_front e' sh) 0
  unfolding entry_of
  moved_front-Edits key e e' sh s here same_id same_key =
      let found = find_elem-entry_of key sh.order e s.elems here in
      let named = entry_of-key key sh.order e here in
      let found' : find_elem e'.id sh.order ≡ some e = rw same_id found in
      record {
        sound = record {
          keys = s.keys;
          index = s.index;
          elems = (
            ground (
              arith,
              entry_of-remove_elem e'.id e'.entry.key sh.order e s.elems found',
              key_eq_iff e.entry.key e'.entry.key,
            ),
            ground (arith, find_elem-remove_elem e'.id e'.id sh.order s.elems),
            remove_elem-DistinctElems e'.id sh.order s.elems,
          );
          fresh = (
            ground (arith, find_elem-fresh sh.next_id e'.id sh.order s.fresh),
            remove_elem-Below sh.next_id e'.id sh.order s.fresh,
          );
          synced = λ k. ground (
            arith,
            s.synced k,
            entry_of-remove_elem e'.id k sh.order e s.elems found',
            key_eq_iff e.entry.key k,
            key_eq_iff e'.entry.key k,
          );
        };
        grown = omega (arith, length-remove_elem e'.id sh.order e found');
        items = λ j other. refl;
        order = λ j other. ground (
          arith,
          entry_of-remove_elem e'.id j sh.order e s.elems found',
          key_eq_iff e'.entry.key j,
          key_eq_iff e.entry.key j,
          key_eq_iff key j,
        );
      }

  -- A new element in front, under a new pointer.
  abbrev pub pushed_front : Element A → Shard A → Shard A
  pushed_front e sh = record sh {
    order = e ∷ sh.order;
    order_items = insert e.entry.key e.id sh.order_items;
    next_id = suc sh.next_id;
  }

  Below-suc : (n : ℕ) (es : List (Element A)) → Below n es → Below (suc n) es
  Below-suc n [] b = tt
  Below-suc n (e ∷ es) b = (omega arith, Below-suc n es b.1)

  pub pushed_front-Edits :
      (e : Element A) (sh : Shard A)
      → IsSound sh
      → e.id ≡ sh.next_id
      → entry_of e.entry.key sh.order ≡ none
      → Edits e.entry.key sh (pushed_front e sh) 1
  unfolding entry_of
  pushed_front-Edits e sh s new gone = record {
    sound = record {
      keys = s.keys;
      index = insert-Distinct e.entry.key e.id sh.order_items s.index;
      elems = (gone, find_elem-fresh sh.next_id e.id sh.order s.fresh (omega arith), s.elems);
      fresh = (omega arith, Below-suc sh.next_id sh.order s.fresh);
      synced = λ k. ground (arith, s.synced k, lookup-insert e.entry.key k e.id sh.order_items);
    };
    grown = omega arith;
    items = λ j other. refl;
    order = λ j other. ground arith;
  }

  abbrev pub written : ℕ → A → Shard A → Shard A
  written i v sh = record sh { order = write_elem i v sh.order }

  pub written-Edits :
      (key : Key) (v : A) (e : Element A) (sh : Shard A)
      → IsSound sh
      → entry_of key sh.order ≡ some e
      → Edits key sh (written e.id v sh) 0
  written-Edits key v e sh s here =
      let found = find_elem-entry_of key sh.order e s.elems here in
      let named = entry_of-key key sh.order e here in
      record {
        sound = record {
          keys = s.keys;
          index = s.index;
          elems = write_elem-DistinctElems e.id v sh.order s.elems;
          fresh = write_elem-Below sh.next_id e.id v sh.order s.fresh;
          synced = λ k. ground (
            arith,
            s.synced k,
            entry_of-write_elem e.id v k sh.order e s.elems found,
            find_elem-entry_of k sh.order e s.elems,
            key_eq_iff e.entry.key k,
          );
        };
        grown = omega (arith, length-write_elem e.id v sh.order);
        items = λ j other. refl;
        order = λ j other. ground (
          arith,
          entry_of-write_elem e.id v j sh.order e s.elems found,
          key_eq_iff e.entry.key j,
          key_eq_iff key j,
        );
      }
