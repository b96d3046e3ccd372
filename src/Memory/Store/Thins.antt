-- ===== src/Memory/Store/Thins.antt =====
-- memory/sharded_store.go across shards: a sweep and an eviction elsewhere only remove keys, and the
-- counter of live keys follows.
use kaka.Prelude.{
  ℕ, zero, suc, ◌+◌, ◌≤◌, ◌<◌, ◌≡◌, refl, ap, ◌∙◌, ◌⊎◌, inl, inr, ℤ, pos_part, neg_part, true, none,
  List, [], ◌∷◌, length, get_or, ◌==◌, lookup, if◌then◌else◌, Bool-cases, arith, ltb_ℤ,
}
use mathlib.Core.Path.{subst}
use native.Mathlib.Nat.{zero-add}
use kaka.Core.{Key}
use kaka.Clock.{Time, time_sub}
use kaka.Memory.Options.{Options}
use kaka.Memory.Shard.{Shard, Held, KeyEntry, size, empty_shard, cleanup_off}
use kaka.Memory.Shard.Lru.{entry_of}
use kaka.Memory.Shard.Sound.{IsSound, Shrinks, Shrinks-refl, or_none_trans}
use kaka.Memory.Shard.Cleanup.{cleanup_map-Shrinks, cleanup_lru-Shrinks, evict_from-Shrinks}
use kaka.Memory.Store.{
  Store, is_lru, cleanup, sweep_shards, sweep_expired, evict_other, evict_any_other,
}

module _ {A : Type 0} where
  abbrev pub AllSound : List (Shard A) → Type 0
  AllSound [] = Unit {0}
  AllSound (sh ∷ shs) = IsSound sh × AllSound shs

  -- The number of keys in all shards.
  unfoldable pub total : List (Shard A) → ℕ
  total [] = 0
  total (sh ∷ shs) = size sh + total shs

  -- What the mode leaves empty.
  abbrev pub unused : Options → Shard A → ℕ
  unused o sh = if is_lru o then length sh.items else length sh.order

  abbrev pub AllInMode : Options → List (Shard A) → Type 0
  AllInMode o [] = Unit {0}
  AllInMode o (sh ∷ shs) = (unused o sh ≡ 0) × AllInMode o shs

  abbrev pub at : List (Shard A) → ℕ → Shard A
  at shs i = get_or shs i empty_shard

  -- `ys` with counter `m` comes from `xs` with counter `l` by removing keys.
  pub record Thins (o : Options) (xs : List (Shard A)) (l : ℤ) (ys : List (Shard A)) (m : ℤ)
      : Type 0 where
    pub sound : AllSound ys
    pub mode : AllInMode o ys
    pub counted : pos_part m + neg_part l + total xs ≡ neg_part m + pos_part l + total ys
    pub smaller : total ys ≤ total xs
    pub as_many : length ys ≡ length xs
    pub items :
        (i : ℕ) (k : Key)
        → (lookup k (at ys i).items ≡ none) ⊎ (lookup k (at ys i).items ≡ lookup k (at xs i).items)
    pub order :
        (i : ℕ) (k : Key)
        → (entry_of k (at ys i).order ≡ none)
          ⊎ (entry_of k (at ys i).order ≡ entry_of k (at xs i).order)

  pub Thins-refl :
      (o : Options) (xs : List (Shard A)) (l : ℤ) → AllSound xs → AllInMode o xs → Thins o xs l xs l
  Thins-refl o xs l s m = record {
    sound = s;
    mode = m;
    counted = omega arith;
    smaller = omega arith;
    as_many = refl;
    items = λ i k. inr refl;
    order = λ i k. inr refl;
  }

  pub Thins-trans :
      {o : Options} {xs ys zs : List (Shard A)} {l m n : ℤ}
      → Thins o xs l ys m
      → Thins o ys m zs n
      → Thins o xs l zs n
  Thins-trans a b = record {
    sound = b.sound;
    mode = b.mode;
    counted = omega (arith, a.counted, b.counted);
    smaller = omega (arith, a.smaller, b.smaller);
    as_many = b.as_many ∙ a.as_many;
    items = λ i k. or_none_trans _ _ _ (a.items i k) (b.items i k);
    order = λ i k. or_none_trans _ _ _ (a.order i k) (b.order i k);
  }

  unused-Shrinks :
      (o : Options) {h g : Held A} → Shrinks h g → unused o h.shard ≡ 0 → unused o g.shard ≡ 0
  unused-Shrinks o a e = ground (arith, a.fewer_items, a.fewer_elems)

  -- One shard after another.
  pub Thins-cons :
      {o : Options} {sh sh' : Shard A} {shs ys : List (Shard A)} {l l' m : ℤ} {v v' : ℕ}
      → Shrinks
          (record { shard = sh; live = l; evicts = v })
          (record { shard = sh'; live = l'; evicts = v' })
      → unused o sh ≡ 0
      → Thins o shs l' ys m
      → Thins o (sh ∷ shs) l (sh' ∷ ys) m
  unfolding total
  Thins-cons {o} {l} {l'} {v} {v'} a e b = record {
    sound = (a.sound, b.sound);
    mode = (unused-Shrinks o a e, b.mode);
    counted = omega (arith, a.counted, b.counted);
    smaller = omega (arith, a.fewer_items, a.fewer_elems, b.smaller);
    as_many = ap suc b.as_many;
    items = elim [ zero ↦ a.items | suc i ↦ b.items i ];
    order = elim [ zero ↦ a.order | suc i ↦ b.order i ];
  }

module _ {A : Type 0} (visit : Time → List (Key × KeyEntry A) → List (Key × KeyEntry A))
    (o : Options) (now : Time) where
  pub cleanup-Shrinks : (h : Held A) → IsSound h.shard → Shrinks h (cleanup visit o now h)
  unfolding cleanup
  cleanup-Shrinks h s = elim (Bool-cases (is_lru o)) [
    | inl p ↦ rw (p, cleanup) (cleanup_lru-Shrinks visit o now h s)
    | inr p ↦ rw (p, cleanup) (cleanup_map-Shrinks visit o now h s)
  ]

  sweep_shards-Thins :
      (shs : List (Shard A)) (l : ℤ) (v : ℕ)
      → AllSound shs
      → AllInMode o shs
      → Thins o shs l
          (sweep_shards visit o now shs l v).shards
          (sweep_shards visit o now shs l v).live
  unfolding sweep_shards
  sweep_shards-Thins [] l v s m = Thins-refl o [] l s m
  sweep_shards-Thins (sh ∷ shs) l v s m =
      let h : Held A = record { shard = sh; live = l; evicts = v } in
      let g = cleanup visit o now h in
      Thins-cons {v = v} {v' = g.evicts} (cleanup-Shrinks h s.0) m.0
        (sweep_shards-Thins shs g.live g.evicts s.1 m.1)

  -- A sweep of all shards only removes keys, and the counter follows.
  pub sweep_expired-Thins :
      (s : Store A)
      → AllSound s.shards
      → AllInMode o s.shards
      → Thins o s.shards s.live
          (sweep_expired visit o now s).shards
          (sweep_expired visit o now s).live
  unfolding sweep_expired
  sweep_expired-Thins s sound mode = elim (Bool-cases (cleanup_off o)) [
    | inl p ↦ rw p (Thins-refl o s.shards s.live sound mode)
    | inr p ↦ elim (Bool-cases (ltb_ℤ (time_sub now s.last_sweep) o.cleanup_interval)) [
      | inl q ↦ rw (p, q) (Thins-refl o s.shards s.live sound mode)
      | inr q ↦ rw (p, q) (sweep_shards-Thins s.shards s.live s.evicts sound mode)
    ]
  ]

module _ {A : Type 0} where
  -- The elements of the shards but `self`, from shard `j` on.
  others : ℕ → ℕ → List (Shard A) → ℕ
  others self j [] = 0
  others self j (sh ∷ shs) = (if j == self then 0 else length sh.order) + others self (suc j) shs

  -- One key is evicted if any other shard has one, and none otherwise.
  pub Evicts : Options → ℕ → ℕ → List (Shard A) → ℤ → List (Shard A) → ℤ → Type 0
  Evicts o self j xs l ys m =
      Thins o xs l ys m
      × (((others self j xs ≡ 0) × (m ≡ l))
          ⊎ ((0 < others self j xs) × (suc (total ys) ≡ total xs)))

  evict_other-Evicts :
      (o : Options) (self j : ℕ) (shs : List (Shard A)) (l : ℤ) (v : ℕ)
      → AllSound shs
      → AllInMode o shs
      → Evicts o self j shs l (evict_other self j shs l v).shards (evict_other self j shs l v).live
  unfolding evict_other Evicts others total
  evict_other-Evicts o self j [] l v s m = (Thins-refl o [] l s m, inl (refl, refl))
  evict_other-Evicts o self j (sh ∷ shs) l v s m =
      let h : Held A = record { shard = sh; live = l; evicts = v } in
      let (thins, progress) = evict_other-Evicts o self (suc j) shs l v s.1 m.1 in
      let skipped = Thins-cons {v = v} {v' = v} (Shrinks-refl h s.0) m.0 thins in
      elim (Bool-cases (j == self)) [
        | inl p ↦ rw (p, evict_other) (skipped, ground arith)
        | inr p ↦ elim (evict_from-Shrinks h s.0) [
          | inl (fails, empty) ↦ rw (p, fails, evict_other) (skipped, ground (arith, empty))
          | inr (g, gone, step, same, one, counter) ↦
              rw (p, gone, evict_other)
                (
                  Thins-cons {v = v} {v' = g.evicts} step m.0 (Thins-refl o shs g.live s.1 m.1),
                  inr (omega (arith, one), omega (arith, one, ap length same)),
                )
        ]
      ]

  others-total :
      (o : Options) (self j : ℕ) (shs : List (Shard A))
      → is_lru o ≡ true
      → self < j
      → AllInMode o shs
      → others self j shs ≡ total shs
  unfolding others total
  others-total o self j [] lru h m = refl
  others-total o self j (sh ∷ shs) lru h m =
      ground (arith, m.0, others-total o self (suc j) shs lru (omega arith) m.1)

  -- What is not in the other shards is in this one.
  others-at :
      (o : Options) (i j : ℕ) (shs : List (Shard A))
      → is_lru o ≡ true
      → AllInMode o shs
      → others (j + i) j shs + length (at shs i).order ≡ total shs
  unfolding others total
  others-at o i j [] lru m = refl
  others-at o zero j (sh ∷ shs) lru m =
      ground (arith, m.0, others-total o (j + 0) (suc j) shs lru (omega arith) m.1)
  others-at o (suc i) j (sh ∷ shs) lru m =
      let shift : j + suc i ≡ suc j + i = omega arith in
      let rest : others (j + suc i) (suc j) shs + length (at shs i).order ≡ total shs =
        rw shift (others-at o i (suc j) shs lru m.1) in
      ground (arith, m.0, rest)

  -- In EvictLRU mode, if a shard has no element, an eviction elsewhere frees a slot, unless the
  -- store is empty.
  pub evict_any_other-Thins :
      (o : Options) (i : ℕ) (s : Store A)
      → is_lru o ≡ true
      → AllSound s.shards
      → AllInMode o s.shards
      → (at s.shards i).order ≡ []
      → Thins o s.shards s.live (evict_any_other i s).shards (evict_any_other i s).live
        × ((total s.shards ≡ 0) ⊎ (suc (total (evict_any_other i s).shards) ≡ total s.shards))
  unfolding evict_any_other Evicts
  evict_any_other-Thins o i s lru sound mode empty =
      let (thins, progress) = evict_other-Evicts o i 0 s.shards s.live s.evicts sound mode in
      let all : others i 0 s.shards + length (at s.shards i).order ≡ total s.shards =
        subst (λ n. others n 0 s.shards + length (at s.shards i).order ≡ total s.shards)
          (zero-add i) (others-at o i 0 s.shards lru mode) in
      (thins, ground (arith, progress, all, ap length empty))
