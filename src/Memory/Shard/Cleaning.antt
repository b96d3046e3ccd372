-- ===== src/Memory/Shard/Cleaning.antt =====
-- memory/sharded_store.go: the loops of `cleanupMap` and `cleanupLRU` that delete the expired keys they
-- gathered keep a shard sound, and leave every other key.
use kaka.Prelude.{
  ℕ, suc, ◌≡◌, refl, ◌∙◌, inl, inr, Bool, false, none, some, List, [], ◌∷◌, take, key_eq,
  key_eq_iff, key_eq_self, Distinct, lookup, lookup-delete_ne, zero, Option-cases, arith, ◌||◌,
}
use kaka.Core.{Key}
use kaka.Clock.{Time}
use kaka.Memory.Options.{Options}
use kaka.Memory.Shard.{
  Held, KeyEntry, Element, expired_at, expired_keys, delete_keys, expired_elems, delete_elems,
  find_elem, remove_elem,
}
use kaka.Memory.Shard.Lru.{
  entry_of, DistinctElems, DistinctIds, Found, Found-take, Found-self, Found-remove_elem,
  entry_of-remove_elem, entry_of-find_elem,
}
use kaka.Memory.Shard.Sound.{
  IsSound, Shrinks, Shrinks-refl, Shrinks-trans, without_key, without_key-Shrinks,
  without_elem-IsSound, without_elem-Shrinks, indexed,
}

pub has_key : Key → List Key → Bool
has_key k [] = false
has_key k (j ∷ ks) = key_eq j k || has_key k ks

module _ {A : Type 0} where
  -- The pairs of a list are entries of the map.
  abbrev pub Listed : List (Key × KeyEntry A) → List (Key × KeyEntry A) → Type 0
  Listed m [] = Unit {0}
  Listed m ((k, e) ∷ r) = (lookup k m ≡ some e) × Listed m r

  -- The runtime ranges over entries of the map, in an order of its own.
  abbrev pub Ranges : (List (Key × KeyEntry A) → List (Key × KeyEntry A)) → Type 0
  Ranges f = (m : List (Key × KeyEntry A)) → Distinct m → Listed m (f m)

  Listed-cons :
      (k : Key) (e : KeyEntry A) (m r : List (Key × KeyEntry A))
      → lookup k m ≡ none
      → Listed m r
      → Listed ((k, e) ∷ m) r
  unfolding lookup
  Listed-cons k e m [] gone l = tt
  Listed-cons k e m ((j, f) ∷ r) gone l =
      (ground (arith, l.0, gone, key_eq_iff k j), Listed-cons k e m r gone l.1)

  -- The order of the list is one that the runtime may take.
  pub Ranges-self : Ranges (λ m. m)
  unfolding lookup
  Ranges-self [] d = tt
  Ranges-self ((k, e) ∷ m) d =
      (ground (arith, key_eq_self k), Listed-cons k e m m d.0 (Ranges-self m d.1))

  pub delete_keys-Shrinks :
      (ks : List Key) (h : Held A) → IsSound h.shard → Shrinks h (delete_keys ks h)
  unfolding delete_keys
  delete_keys-Shrinks [] h s = Shrinks-refl h s
  delete_keys-Shrinks (k ∷ ks) h s = elim (Option-cases (lookup k h.shard.items)) [
    | inl gone ↦ rw (gone, delete_keys) (delete_keys-Shrinks ks h s)
    | inr (e, here) ↦
        let step = without_key-Shrinks k h e s here in
        rw (here, delete_keys)
          (Shrinks-trans step (delete_keys-Shrinks ks (without_key k h) step.sound))
  ]

  pub delete_keys-kept :
      (ks : List Key) (h : Held A) (k : Key)
      → has_key k ks ≡ false
      → lookup k (delete_keys ks h).shard.items ≡ lookup k h.shard.items
  unfolding delete_keys has_key
  delete_keys-kept [] h k p = refl
  delete_keys-kept (j ∷ ks) h k p = elim (Option-cases (lookup j h.shard.items)) [
    | inl gone ↦ rw (gone, delete_keys) (delete_keys-kept ks h k (ground arith))
    | inr (e, here) ↦
        rw (here, delete_keys)
          (delete_keys-kept ks (without_key j h) k (ground arith)
            ∙ lookup-delete_ne j k h.shard.items (ground arith))
  ]

  pub expired_keys-live :
      (o : Options) (now : Time) (m r : List (Key × KeyEntry A)) (k : Key) (e : KeyEntry A)
      → Listed m r
      → lookup k m ≡ some e
      → expired_at o now e.last_seen ≡ false
      → has_key k (expired_keys o now r) ≡ false
  unfolding expired_keys has_key
  expired_keys-live o now m [] k e l h p = refl
  expired_keys-live o now m ((j, f) ∷ r) k e l h p =
      ground (arith, key_eq_iff j k, expired_keys-live o now m r k e l.1 h p)

  pub Listed-take : (n : ℕ) (m r : List (Key × KeyEntry A)) → Listed m r → Listed m (take n r)
  Listed-take zero m r l = tt
  Listed-take (suc n) m [] l = tt
  Listed-take (suc n) m ((j, f) ∷ r) l = (l.0, Listed-take n m r l.1)

  pub delete_elems-Shrinks :
      (es : List (Element A)) (h : Held A)
      → IsSound h.shard
      → Found h.shard.order es
      → DistinctIds es
      → Shrinks h (delete_elems es h)
  unfolding delete_elems
  delete_elems-Shrinks [] h s f d = Shrinks-refl h s
  delete_elems-Shrinks (e ∷ es) h s f d =
      let step = without_elem-Shrinks e h.shard s f.0 h.live h.evicts h.evicts in
      rw (indexed e h.shard s f.0, delete_elems)
        (Shrinks-trans step (
          delete_elems-Shrinks es _ step.sound
            (Found-remove_elem e.id h.shard.order es s.elems d.0 f.1) d.1))

  -- Removing one element leaves another where it was.
  other_kept :
      (es order : List (Element A)) (e x : Element A) (k : Key)
      → DistinctElems order
      → find_elem e.id order ≡ some e
      → entry_of k order ≡ some x
      → find_elem x.id (e ∷ es) ≡ none
      → entry_of k (remove_elem e.id order) ≡ some x
  unfolding find_elem
  other_kept es order e x k d found here p = ground (
    arith,
    entry_of-remove_elem e.id k order e d found,
    entry_of-find_elem e.id order e d found,
    key_eq_iff e.entry.key k,
  )

  absent_rest :
      (i : ℕ) (e : Element A) (es : List (Element A))
      → find_elem i (e ∷ es) ≡ none
      → find_elem i es ≡ none
  unfolding find_elem
  absent_rest i e es h = ground arith

  pub delete_elems-kept :
      (es : List (Element A)) (h : Held A) (k : Key) (x : Element A)
      → IsSound h.shard
      → Found h.shard.order es
      → DistinctIds es
      → entry_of k h.shard.order ≡ some x
      → find_elem x.id es ≡ none
      → entry_of k (delete_elems es h).shard.order ≡ some x
  unfolding delete_elems
  delete_elems-kept [] h k x s f d here p = here
  delete_elems-kept (e ∷ es) h k x s f d here p =
      rw (indexed e h.shard s f.0, delete_elems)
        (delete_elems-kept es _ k x (without_elem-IsSound e h.shard s f.0)
          (Found-remove_elem e.id h.shard.order es s.elems d.0 f.1) d.1
          (other_kept es h.shard.order e x k s.elems f.0 here p) (absent_rest x.id e es p))

  pub expired_elems-live :
      (o : Options) (now : Time) (order r : List (Element A)) (x : Element A)
      → Found order r
      → find_elem x.id order ≡ some x
      → expired_at o now x.entry.last_seen ≡ false
      → find_elem x.id (expired_elems o now r) ≡ none
  unfolding expired_elems find_elem
  expired_elems-live o now order [] x f h p = refl
  expired_elems-live o now order (e ∷ r) x f h p =
      ground (arith, f.0, expired_elems-live o now order r x f.1 h p)

  -- The entries that a clean-up visits.
  pub Found-batch :
      (n : ℕ) (order : List (Element A)) → DistinctElems order → Found order (take n order)
  Found-batch n order d = Found-take n order order (Found-self order d)
