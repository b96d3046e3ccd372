-- ===== src/Prelude/Dict.antt =====
-- A Go map with string keys: an association list, whose order is not that of an iteration.
use Prim.Native.Nat.{ℕ, suc}
use mathlib.Core.Path.{◌≡◌, refl}
use mathlib.Core.Logic.{◌↔◌}
use mathlib.Core.Bool.{Bool, true, false, ◌&&◌}
use mathlib.Core.Option.{Option, none, some}
use mathlib.Core.List.{List, [], ◌∷◌}
use native.Mathlib.Omega.{arith}
use kaka.Prelude.Tests.{◌==◌, if◌then◌else◌}
use kaka.Prelude.Lists.{length}

-- Equality of byte strings.
unfoldable pub key_eq : List ℕ → List ℕ → Bool
key_eq [] [] = true
key_eq [] (c ∷ t) = false
key_eq (b ∷ s) [] = false
key_eq (b ∷ s) (c ∷ t) = b == c && key_eq s t

pub key_eq_iff : (s t : List ℕ) → (key_eq s t ≡ true) ↔ (s ≡ t)
unfolding key_eq
key_eq_iff [] [] = ground arith
key_eq_iff [] (c ∷ t) = ground arith
key_eq_iff (b ∷ s) [] = ground arith
key_eq_iff (b ∷ s) (c ∷ t) = ground (arith, key_eq_iff s t)

pub key_eq_self : (s : List ℕ) → key_eq s s ≡ true
key_eq_self s = (key_eq_iff s s).1 refl

module _ {ℓ} {V : Type ℓ} where
  unfoldable pub lookup : List ℕ → List (List ℕ × V) → Option V
  lookup k [] = none
  lookup k ((j, v) ∷ m) = if key_eq j k then some v else lookup k m

  -- `m[k] = v`
  unfoldable pub insert : List ℕ → V → List (List ℕ × V) → List (List ℕ × V)
  insert k v [] = (k, v) ∷ []
  insert k v ((j, w) ∷ m) = if key_eq j k then (j, v) ∷ m else (j, w) ∷ insert k v m

  -- `delete(m, k)`
  unfoldable pub delete : List ℕ → List (List ℕ × V) → List (List ℕ × V)
  delete k [] = []
  delete k ((j, w) ∷ m) = if key_eq j k then m else (j, w) ∷ delete k m

  pub lookup-insert :
      (k j : List ℕ) (v : V) (m : List (List ℕ × V))
      → lookup j (insert k v m) ≡ (if key_eq k j then some v else lookup j m)
  unfolding lookup insert
  lookup-insert k j v [] = refl
  lookup-insert k j v ((i, w) ∷ m) =
      ground (arith, key_eq_iff k j, key_eq_iff i k, key_eq_iff i j, lookup-insert k j v m)

  pub length-insert-new :
      (k : List ℕ) (v : V) (m : List (List ℕ × V))
      → lookup k m ≡ none
      → length (insert k v m) ≡ suc (length m)
  unfolding lookup insert
  length-insert-new k v [] h = refl
  length-insert-new k v ((i, w) ∷ m) h = ground (arith, length-insert-new k v m)

  pub length-insert-old :
      (k : List ℕ) (v w : V) (m : List (List ℕ × V))
      → lookup k m ≡ some w
      → length (insert k v m) ≡ length m
  unfolding lookup insert
  length-insert-old k v w [] h = cc
  length-insert-old k v w ((i, x) ∷ m) h = ground (arith, length-insert-old k v w m)

  pub length-delete :
      (k : List ℕ) (v : V) (m : List (List ℕ × V))
      → lookup k m ≡ some v
      → suc (length (delete k m)) ≡ length m
  unfolding lookup delete
  length-delete k v [] h = cc
  length-delete k v ((i, x) ∷ m) h = ground (arith, length-delete k v m)

  pub lookup-delete_ne :
      (k j : List ℕ) (m : List (List ℕ × V))
      → key_eq k j ≡ false
      → lookup j (delete k m) ≡ lookup j m
  unfolding lookup delete
  lookup-delete_ne k j [] h = refl
  lookup-delete_ne k j ((i, x) ∷ m) h =
      ground (arith, key_eq_iff k j, key_eq_iff i k, key_eq_iff i j, lookup-delete_ne k j m h)

  -- No key twice.
  abbrev pub Distinct : List (List ℕ × V) → Type ℓ
  Distinct [] = Unit
  Distinct ((k, v) ∷ m) = (lookup k m ≡ none) × Distinct m

  pub lookup-delete_self :
      (k : List ℕ) (m : List (List ℕ × V)) → Distinct m → lookup k (delete k m) ≡ none
  unfolding lookup delete
  lookup-delete_self k [] d = refl
  lookup-delete_self k ((i, x) ∷ m) d = ground (arith, key_eq_iff i k, lookup-delete_self k m d.1)

  pub delete-Distinct : (k : List ℕ) (m : List (List ℕ × V)) → Distinct m → Distinct (delete k m)
  unfolding delete
  delete-Distinct k [] d = tt
  delete-Distinct k ((i, x) ∷ m) d =
      ground
        (arith, delete-Distinct k m d.1, lookup-delete_ne k i m, key_eq_iff i k, key_eq_iff k i)

  pub insert-Distinct :
      (k : List ℕ) (v : V) (m : List (List ℕ × V)) → Distinct m → Distinct (insert k v m)
  unfolding lookup insert
  insert-Distinct k v [] d = (refl, tt)
  insert-Distinct k v ((i, x) ∷ m) d =
      ground
        (arith, insert-Distinct k v m d.1, lookup-insert k i v m, key_eq_iff i k, key_eq_iff k i)
