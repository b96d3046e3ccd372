-- ===== src/Memory/Store/Moves.antt =====
-- memory/sharded_store.go: what an access to one key does to the shards. The entry of the key changes,
-- other keys may only be removed, and the counter of live keys follows but for `n` keys that are
-- stored in slots counted before.
use kaka.Prelude.{
  ℕ, zero, suc, ◌+◌, ◌≤◌, ◌<◌, ◌≡◌, refl, ap, ◌∙◌, ◌⊎◌, inr, ℤ, pos_part, neg_part, false, none,
  List, [], ◌∷◌, length, set, key_eq, lookup, arith,
}
use kaka.Core.{Key}
use kaka.Memory.Options.{Options}
use kaka.Memory.Shard.{Shard, Held, size}
use kaka.Memory.Shard.Lru.{entry_of}
use kaka.Memory.Shard.Sound.{IsSound, Shrinks, or_none_trans}
use kaka.Memory.Shard.Edits.{Edits}
use kaka.Memory.Store.Thins.{AllSound, AllInMode, unused, total, at, Thins}

module _ {A : Type 0} where
  -- One shard, under its lock.
  pub record Alters (key : Key) (h g : Held A) (n : ℕ) : Type 0 where
    pub sound : IsSound g.shard
    pub counted :
        pos_part g.live + neg_part h.live + size h.shard + n
        ≡ neg_part g.live + pos_part h.live + size g.shard
    pub smaller : size g.shard ≤ size h.shard + n
    pub items :
        (k : Key)
        → key_eq key k ≡ false
        → (lookup k g.shard.items ≡ none) ⊎ (lookup k g.shard.items ≡ lookup k h.shard.items)
    pub order :
        (k : Key)
        → key_eq key k ≡ false
        → (entry_of k g.shard.order ≡ none) ⊎ (entry_of k g.shard.order ≡ entry_of k h.shard.order)

  pub Alters-Shrinks : (key : Key) {h g : Held A} → Shrinks h g → Alters key h g 0
  Alters-Shrinks key a = record {
    sound = a.sound;
    counted = omega (arith, a.counted);
    smaller = omega (arith, a.fewer_items, a.fewer_elems);
    items = λ k other. a.items k;
    order = λ k other. a.order k;
  }

  pub Alters-Edits :
      {key : Key} {sh sh' : Shard A} {n : ℕ} (l : ℤ) (v : ℕ)
      → Edits key sh sh' n
      → Alters key
          (record { shard = sh; live = l; evicts = v })
          (record { shard = sh'; live = l; evicts = v })
          n
  Alters-Edits l v e = record {
    sound = e.sound;
    counted = omega (arith, e.grown);
    smaller = omega (arith, e.grown);
    items = λ k other. inr (e.items k other);
    order = λ k other. inr (e.order k other);
  }

  pub Alters-trans :
      {key : Key} {f g h : Held A} {m n : ℕ}
      → Alters key f g m
      → Alters key g h n
      → Alters key f h (m + n)
  Alters-trans a b = record {
    sound = b.sound;
    counted = omega (arith, a.counted, b.counted);
    smaller = omega (arith, a.smaller, b.smaller);
    items = λ k other. or_none_trans _ _ _ (a.items k other) (b.items k other);
    order = λ k other. or_none_trans _ _ _ (a.order k other) (b.order k other);
  }

  -- All shards; `l` and `m` are the counter before and after.
  pub record Moves (o : Options) (key : Key) (xs : List (Shard A)) (l : ℤ) (ys : List (Shard A))
      (m : ℤ) (n : ℕ) : Type 0 where
    pub sound : AllSound ys
    pub mode : AllInMode o ys
    pub counted : pos_part m + neg_part l + total xs + n ≡ neg_part m + pos_part l + total ys
    pub smaller : total ys ≤ total xs + n
    pub as_many : length ys ≡ length xs
    pub items :
        (i : ℕ) (k : Key)
        → key_eq key k ≡ false
        → (lookup k (at ys i).items ≡ none) ⊎ (lookup k (at ys i).items ≡ lookup k (at xs i).items)
    pub order :
        (i : ℕ) (k : Key)
        → key_eq key k ≡ false
        → (entry_of k (at ys i).order ≡ none)
          ⊎ (entry_of k (at ys i).order ≡ entry_of k (at xs i).order)

  pub Moves-Thins :
      {o : Options} (key : Key) {xs ys : List (Shard A)} {l m : ℤ}
      → Thins o xs l ys m
      → Moves o key xs l ys m 0
  Moves-Thins key a = record {
    sound = a.sound;
    mode = a.mode;
    counted = omega (arith, a.counted);
    smaller = omega (arith, a.smaller);
    as_many = a.as_many;
    items = λ i k other. a.items i k;
    order = λ i k other. a.order i k;
  }

  pub Moves-trans :
      {o : Options} {key : Key} {xs ys zs : List (Shard A)} {l m r : ℤ} {n p : ℕ}
      → Moves o key xs l ys m n
      → Moves o key ys m zs r p
      → Moves o key xs l zs r (n + p)
  Moves-trans a b = record {
    sound = b.sound;
    mode = b.mode;
    counted = omega (arith, a.counted, b.counted);
    smaller = omega (arith, a.smaller, b.smaller);
    as_many = b.as_many ∙ a.as_many;
    items = λ i k other. or_none_trans _ _ _ (a.items i k other) (b.items i k other);
    order = λ i k other. or_none_trans _ _ _ (a.order i k other) (b.order i k other);
  }

  -- The shards after this one stay as they are, and so do those before it.
  pub Moves-set :
      (o : Options) (key : Key) (xs : List (Shard A)) (i : ℕ) (g : Held A) (l : ℤ) (v n : ℕ)
      → i < length xs
      → AllSound xs
      → AllInMode o xs
      → unused o g.shard ≡ 0
      → Alters key (record { shard = at xs i; live = l; evicts = v }) g n
      → Moves o key xs l (set xs i g.shard) g.live n
  unfolding total
  Moves-set o key [] i g l v n h s m e a = absurd (omega arith)
  Moves-set o key (x ∷ xs) zero g l v n h s m e a = record {
    sound = (a.sound, s.1);
    mode = (e, m.1);
    counted = omega (arith, a.counted);
    smaller = omega (arith, a.smaller);
    as_many = refl;
    items = elim [ zero ↦ a.items | suc j ↦ λ k other. inr refl ];
    order = elim [ zero ↦ a.order | suc j ↦ λ k other. inr refl ];
  }
  Moves-set o key (x ∷ xs) (suc i) g l v n h s m e a =
      let r = Moves-set o key xs i g l v n (omega arith) s.1 m.1 e a in
      record {
        sound = (s.0, r.sound);
        mode = (m.0, r.mode);
        counted = omega (arith, r.counted);
        smaller = omega (arith, r.smaller);
        as_many = ap suc r.as_many;
        items = elim [ zero ↦ λ k other. inr refl | suc j ↦ r.items j ];
        order = elim [ zero ↦ λ k other. inr refl | suc j ↦ r.order j ];
      }

  -- Other keys may only be removed.
  pub record Spares (key : Key) (xs ys : List (Shard A)) : Type 0 where
    pub as_many : length ys ≡ length xs
    pub items :
        (i : ℕ) (k : Key)
        → key_eq key k ≡ false
        → (lookup k (at ys i).items ≡ none) ⊎ (lookup k (at ys i).items ≡ lookup k (at xs i).items)
    pub order :
        (i : ℕ) (k : Key)
        → key_eq key k ≡ false
        → (entry_of k (at ys i).order ≡ none)
          ⊎ (entry_of k (at ys i).order ≡ entry_of k (at xs i).order)

  pub Spares-Moves :
      {o : Options} {key : Key} {xs ys : List (Shard A)} {l m : ℤ} {n : ℕ}
      → Moves o key xs l ys m n
      → Spares key xs ys
  Spares-Moves a = record { as_many = a.as_many; items = a.items; order = a.order }

  pub Spares-trans :
      {key : Key} {xs ys zs : List (Shard A)}
      → Spares key xs ys
      → Spares key ys zs
      → Spares key xs zs
  Spares-trans a b = record {
    as_many = b.as_many ∙ a.as_many;
    items = λ i k other. or_none_trans _ _ _ (a.items i k other) (b.items i k other);
    order = λ i k other. or_none_trans _ _ _ (a.order i k other) (b.order i k other);
  }
