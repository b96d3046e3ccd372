-- ===== src/Memory/Shard/Lru.antt =====
-- memory/sharded_store.go, the linked list of an EvictLRU shard: its elements are told apart by their
-- pointers and by their keys, and removing one changes nothing about the others.
use kaka.Prelude.{
  ℕ, zero, suc, ◌≤◌, ◌<◌, ◌≡◌, refl, Option, none, some, List, [], ◌∷◌, length, take, ◌==◌, key_eq,
  key_eq_iff, if◌then◌else◌, arith,
}
use kaka.Core.{Key}
use kaka.Clock.{Time}
use kaka.Memory.Options.{Options}
use kaka.Memory.Shard.{Element, remove_elem, find_elem, back, expired_elems}

module _ {A : Type 0} where
  -- The element of a key.
  unfoldable pub entry_of : Key → List (Element A) → Option (Element A)
  entry_of k [] = none
  entry_of k (e ∷ es) = if key_eq e.entry.key k then some e else entry_of k es

  abbrev pub DistinctElems : List (Element A) → Type 0
  DistinctElems [] = Unit {0}
  DistinctElems (e ∷ es) =
      (entry_of e.entry.key es ≡ none) × (find_elem e.id es ≡ none) × DistinctElems es

  -- Every pointer was made before `n`.
  abbrev pub Below : ℕ → List (Element A) → Type 0
  Below n [] = Unit {0}
  Below n (e ∷ es) = (e.id < n) × Below n es

  -- The elements of `xs` are elements of `es`.
  abbrev pub Found : List (Element A) → List (Element A) → Type 0
  Found es [] = Unit {0}
  Found es (x ∷ xs) = (find_elem x.id es ≡ some x) × Found es xs

  pub find_elem-id :
      (i : ℕ) (es : List (Element A)) (e : Element A) → find_elem i es ≡ some e → e.id ≡ i
  unfolding find_elem
  find_elem-id i [] e h = cc
  find_elem-id i (x ∷ es) e h = ground (arith, find_elem-id i es e)

  pub entry_of-key :
      (k : Key) (es : List (Element A)) (e : Element A) → entry_of k es ≡ some e → e.entry.key ≡ k
  unfolding entry_of
  entry_of-key k [] e h = cc
  entry_of-key k (x ∷ es) e h = ground (arith, key_eq_iff x.entry.key k, entry_of-key k es e)

  pub find_elem-entry_of :
      (k : Key) (es : List (Element A)) (e : Element A)
      → DistinctElems es
      → entry_of k es ≡ some e
      → find_elem e.id es ≡ some e
  unfolding entry_of find_elem
  find_elem-entry_of k [] e d h = cc
  find_elem-entry_of k (x ∷ es) e d h = ground (arith, find_elem-entry_of k es e d.2)

  pub entry_of-find_elem :
      (i : ℕ) (es : List (Element A)) (e : Element A)
      → DistinctElems es
      → find_elem i es ≡ some e
      → entry_of e.entry.key es ≡ some e
  unfolding entry_of find_elem
  entry_of-find_elem i [] e d h = cc
  entry_of-find_elem i (x ∷ es) e d h = ground (
    arith,
    entry_of-find_elem i es e d.2,
    key_eq_iff x.entry.key x.entry.key,
    key_eq_iff x.entry.key e.entry.key,
  )

  pub length-remove_elem :
      (i : ℕ) (es : List (Element A)) (e : Element A)
      → find_elem i es ≡ some e
      → suc (length (remove_elem i es)) ≡ length es
  unfolding find_elem remove_elem
  length-remove_elem i [] e h = cc
  length-remove_elem i (x ∷ es) e h = ground (arith, length-remove_elem i es e)

  pub find_elem-remove_elem :
      (i j : ℕ) (es : List (Element A))
      → DistinctElems es
      → find_elem j (remove_elem i es) ≡ (if i == j then none else find_elem j es)
  unfolding find_elem remove_elem
  find_elem-remove_elem i j [] d = ground arith
  find_elem-remove_elem i j (x ∷ es) d = ground (arith, find_elem-remove_elem i j es d.2)

  pub entry_of-remove_elem :
      (i : ℕ) (k : Key) (es : List (Element A)) (e : Element A)
      → DistinctElems es
      → find_elem i es ≡ some e
      → entry_of k (remove_elem i es) ≡ (if key_eq e.entry.key k then none else entry_of k es)
  unfolding entry_of find_elem remove_elem
  entry_of-remove_elem i k [] e d h = cc
  entry_of-remove_elem i k (x ∷ es) e d h = ground (
    arith,
    entry_of-remove_elem i k es e d.2,
    entry_of-find_elem i es e d.2,
    key_eq_iff x.entry.key k,
    key_eq_iff e.entry.key k,
    key_eq_iff x.entry.key e.entry.key,
  )

  pub remove_elem-Below :
      (n i : ℕ) (es : List (Element A)) → Below n es → Below n (remove_elem i es)
  unfolding remove_elem
  remove_elem-Below n i [] b = tt
  remove_elem-Below n i (x ∷ es) b = ground (arith, remove_elem-Below n i es b.1)

  absent-remove_elem :
      (i : ℕ) (k : Key) (es : List (Element A))
      → entry_of k es ≡ none
      → entry_of k (remove_elem i es) ≡ none
  unfolding entry_of remove_elem
  absent-remove_elem i k [] h = refl
  absent-remove_elem i k (x ∷ es) h = ground (arith, absent-remove_elem i k es)

  pub remove_elem-DistinctElems :
      (i : ℕ) (es : List (Element A)) → DistinctElems es → DistinctElems (remove_elem i es)
  unfolding remove_elem
  remove_elem-DistinctElems i [] d = tt
  remove_elem-DistinctElems i (x ∷ es) d = ground (
    arith,
    remove_elem-DistinctElems i es d.2,
    absent-remove_elem i x.entry.key es d.0,
    find_elem-remove_elem i x.id es d.2,
  )

  pub find_elem-fresh :
      (n i : ℕ) (es : List (Element A)) → Below n es → n ≤ i → find_elem i es ≡ none
  unfolding find_elem
  find_elem-fresh n i [] b h = refl
  find_elem-fresh n i (x ∷ es) b h = ground (arith, find_elem-fresh n i es b.1)

  pub back-found :
      (es : List (Element A)) (e : Element A)
      → DistinctElems es
      → back es ≡ some e
      → find_elem e.id es ≡ some e
  unfolding back find_elem
  back-found [] e d h = cc
  back-found (x ∷ []) e d h = ground arith
  back-found (x ∷ y ∷ es) e d h = ground (arith, back-found (y ∷ es) e d.2 h)

  pub back-none : (es : List (Element A)) → back es ≡ none → es ≡ []
  unfolding back
  back-none [] h = refl
  back-none (x ∷ []) h = cc
  back-none (x ∷ y ∷ es) h = absurd (not_nil (back-none (y ∷ es) h))
    where
      not_nil : (y ∷ es ≡ []) → ⊥
      not_nil e = cc

  Found-cons :
      (e : Element A) (es xs : List (Element A))
      → find_elem e.id es ≡ none
      → Found es xs
      → Found (e ∷ es) xs
  unfolding find_elem
  Found-cons e es [] h f = tt
  Found-cons e es (x ∷ xs) h f = (ground arith, Found-cons e es xs h f.1)

  pub Found-self : (es : List (Element A)) → DistinctElems es → Found es es
  unfolding find_elem
  Found-self [] d = tt
  Found-self (e ∷ es) d = (ground arith, Found-cons e es es d.1 (Found-self es d.2))

  pub Found-take : (n : ℕ) (es xs : List (Element A)) → Found es xs → Found es (take n xs)
  Found-take zero es xs f = tt
  Found-take (suc n) es [] f = tt
  Found-take (suc n) es (x ∷ xs) f = (f.0, Found-take n es xs f.1)

  Found-expired :
      (o : Options) (now : Time) (es xs : List (Element A))
      → Found es xs
      → Found es (expired_elems o now xs)
  unfolding expired_elems
  Found-expired o now es [] f = tt
  Found-expired o now es (x ∷ xs) f = ground (arith, f.0, Found-expired o now es xs f.1)

  -- The elements after the first are not the first, nor is the first found once it is removed.
  pub Found-remove_elem :
      (i : ℕ) (es xs : List (Element A))
      → DistinctElems es
      → find_elem i xs ≡ none
      → Found es xs
      → Found (remove_elem i es) xs
  unfolding find_elem
  Found-remove_elem i es [] d h f = tt
  Found-remove_elem i es (x ∷ xs) d h f = (
    ground (arith, find_elem-remove_elem i x.id es d),
    Found-remove_elem i es xs d (ground arith) f.1,
  )

  -- No pointer twice.
  abbrev pub DistinctIds : List (Element A) → Type 0
  DistinctIds [] = Unit {0}
  DistinctIds (e ∷ es) = (find_elem e.id es ≡ none) × DistinctIds es

  DistinctElems-ids : (es : List (Element A)) → DistinctElems es → DistinctIds es
  DistinctElems-ids [] d = tt
  DistinctElems-ids (e ∷ es) d = (d.1, DistinctElems-ids es d.2)

  absent-take :
      (n i : ℕ) (es : List (Element A)) → find_elem i es ≡ none → find_elem i (take n es) ≡ none
  unfolding find_elem
  absent-take zero i es h = refl
  absent-take (suc n) i [] h = refl
  absent-take (suc n) i (x ∷ es) h = ground (arith, absent-take n i es)

  absent-expired :
      (o : Options) (now : Time) (i : ℕ) (es : List (Element A))
      → find_elem i es ≡ none
      → find_elem i (expired_elems o now es) ≡ none
  unfolding find_elem expired_elems
  absent-expired o now i [] h = refl
  absent-expired o now i (x ∷ es) h = ground (arith, absent-expired o now i es)

  take-DistinctIds : (n : ℕ) (es : List (Element A)) → DistinctIds es → DistinctIds (take n es)
  take-DistinctIds zero es d = tt
  take-DistinctIds (suc n) [] d = tt
  take-DistinctIds (suc n) (x ∷ es) d = (absent-take n x.id es d.0, take-DistinctIds n es d.1)

  expired_elems-DistinctIds :
      (o : Options) (now : Time) (es : List (Element A))
      → DistinctIds es
      → DistinctIds (expired_elems o now es)
  unfolding expired_elems
  expired_elems-DistinctIds o now [] d = tt
  expired_elems-DistinctIds o now (x ∷ es) d =
      ground (arith, absent-expired o now x.id es d.0, expired_elems-DistinctIds o now es d.1)

  -- What a clean-up removes are elements of the list, each once.
  pub expired_batch :
      (o : Options) (now : Time) (n : ℕ) (es : List (Element A))
      → DistinctElems es
      → Found es (expired_elems o now (take n es)) × DistinctIds (expired_elems o now (take n es))
  expired_batch o now n es d = (
    Found-expired o now es (take n es) (Found-take n es es (Found-self es d)),
    expired_elems-DistinctIds o now (take n es) (take-DistinctIds n es (DistinctElems-ids es d)),
  )
