-- ===== src/Memory/Shard/Writes.antt =====
-- memory/sharded_store.go, a write to an element's value through its pointer.
use kaka.Prelude.{
  ℕ, ◌≡◌, refl, none, some, List, [], ◌∷◌, length, key_eq, key_eq_iff, if◌then◌else◌, arith,
}
use kaka.Core.{Key}
use kaka.Memory.Shard.{Element, find_elem, write_elem}
use kaka.Memory.Shard.Lru.{entry_of, DistinctElems, Below, entry_of-find_elem}

module _ {A : Type 0} where
  pub length-write_elem :
      (i : ℕ) (v : A) (es : List (Element A)) → length (write_elem i v es) ≡ length es
  unfolding write_elem
  length-write_elem i v [] = refl
  length-write_elem i v (x ∷ es) = ground (arith, length-write_elem i v es)

  pub write_elem-Below :
      (n i : ℕ) (v : A) (es : List (Element A)) → Below n es → Below n (write_elem i v es)
  unfolding write_elem
  write_elem-Below n i v [] b = tt
  write_elem-Below n i v (x ∷ es) b = ground (arith, write_elem-Below n i v es b.1)

  absent_key :
      (i : ℕ) (v : A) (k : Key) (es : List (Element A))
      → entry_of k es ≡ none
      → entry_of k (write_elem i v es) ≡ none
  unfolding write_elem entry_of
  absent_key i v k [] h = refl
  absent_key i v k (x ∷ es) h = ground (arith, absent_key i v k es)

  absent_id :
      (i j : ℕ) (v : A) (es : List (Element A))
      → find_elem j es ≡ none
      → find_elem j (write_elem i v es) ≡ none
  unfolding write_elem find_elem
  absent_id i j v [] h = refl
  absent_id i j v (x ∷ es) h = ground (arith, absent_id i j v es)

  pub write_elem-DistinctElems :
      (i : ℕ) (v : A) (es : List (Element A)) → DistinctElems es → DistinctElems (write_elem i v es)
  unfolding write_elem
  write_elem-DistinctElems i v [] d = tt
  write_elem-DistinctElems i v (x ∷ es) d = ground (
    arith,
    write_elem-DistinctElems i v es d.2,
    absent_key i v x.entry.key es d.0,
    absent_id i x.id v es d.1,
  )

  -- The element of one key has the new value.
  pub entry_of-write_elem :
      (i : ℕ) (v : A) (k : Key) (es : List (Element A)) (e : Element A)
      → DistinctElems es
      → find_elem i es ≡ some e
      → entry_of k (write_elem i v es) ≡ (
          if key_eq e.entry.key k
          then some (record e { entry = record (e.entry) { value = v } })
          else entry_of k es)
  unfolding write_elem find_elem entry_of
  entry_of-write_elem i v k [] e d h = cc
  entry_of-write_elem i v k (x ∷ es) e d h = ground (
    arith,
    entry_of-write_elem i v k es e d.2,
    entry_of-find_elem i es e d.2,
    key_eq_iff x.entry.key k,
    key_eq_iff e.entry.key k,
    key_eq_iff x.entry.key e.entry.key,
  )
