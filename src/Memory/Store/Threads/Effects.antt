-- ===== src/Memory/Store/Threads/Effects.antt =====
-- memory/sharded_store.go: the effects of a turn, by what it touches.
use kaka.Prelude.{
  ℕ, zero, suc, ◌+◌, ◌≡◌, ◌<◌, refl, sym, ap, ◌∙◌, ◌⊎◌, inl, inr, pos, pos_part, neg_part, ◌≤ℤ◌,
  false, none, some, List, [], ◌∷◌, length, set, get_or-set_self, key_eq, key_eq_iff, ◌==◌, ==_iff,
  Bool-cases, Option-cases, arith,
}
use mathlib.Core.Path.{subst}
use kaka.Core.{Key}
use kaka.Memory.Options.{Options}
use kaka.Memory.Shard.{Shard, Held, empty_shard}
use kaka.Memory.Store.Thins.{AllSound, AllInMode, unused, total, at}
use kaka.Memory.Store.Moves.{Alters, Moves-set}
use kaka.Memory.Hash.{shard_for}
use kaka.Memory.Store.Access.{value_at}
use kaka.Memory.Store.Threads.{
  Pc, Shared, Turn, blocked, panicked, moved, take_lock, free_lock, acquire, local, put, debt,
}
use kaka.Memory.Store.Threads.Owing.{holds, sweeps, owed, subject}
use kaka.Memory.Store.Threads.Inv.{seen, IsFresh, Locks, Sweeps, Effect}

-- A shard that is not written stays.
at-set_ne :
    {A : Type 0} (xs : List (Shard A)) (j k : ℕ) (sh : Shard A)
    → k == j ≡ false
    → at (set xs j sh) k ≡ at xs k
at-set_ne [] j k sh e = refl
at-set_ne (x ∷ xs) zero zero sh e = ground (arith, e)
at-set_ne (x ∷ xs) zero (suc k) sh e = refl
at-set_ne (x ∷ xs) (suc j) zero sh e = refl
at-set_ne (x ∷ xs) (suc j) (suc k) sh e = at-set_ne xs j k sh (ground (arith, e))

module _ {A : Type 0} (o : Options) (n t : ℕ) (m : Shared A) where
  -- What a turn may rely on of the shards.
  pub record Known : Type 0 where
    pub sound : AllSound m.shards
    pub mode : AllInMode o m.shards
    pub as_many : length m.shards ≡ n

  -- A turn does not panic, and has an effect that keeps the invariant.
  abbrev pub Good : Pc A → Turn A → Type 0
  Good p blocked = Unit {0}
  Good p panicked = ⊥
  Good p (moved m' p') = Effect o n t m p m' p'

  -- What key `i` has after the write of a shard.
  abbrev Seen : Pc A → Key → Shard A → Shard A → Type 0
  Seen p i sh sh' =
      (subject p ≡ some i)
      ⊎ ((value_at o i sh' ≡ value_at o i sh) ⊎ ((subject p ≡ none) × (value_at o i sh' ≡ none)))

  -- A write of shard `j` makes or updates one key's state, or removes states.
  abbrev pub Own : Pc A → Key → ℕ → Held A → Type 0
  Own p key j g =
      ((subject p ≡ some key)
        × ((i : Key) → key_eq key i ≡ false → value_at o i g.shard ≡ value_at o i (at m.shards j)))
      ⊎ ((subject p ≡ none)
          × ((value_at o key g.shard ≡ none)
              ⊎ (value_at o key g.shard ≡ value_at o key (at m.shards j))))

  one_shard :
      (p : Pc A) (key : Key) (j : ℕ) (g : Held A) (k : ℕ) (i : Key)
      → Alters key (local m j) g k
      → Own p key j g
      → Seen p i (at m.shards j) g.shard
  one_shard p key j g k i a (inl (mine, exact)) = elim (Bool-cases (key_eq key i)) [
    | inl same ↦ inl (mine ∙ ap some ((key_eq_iff key i).0 same))
    | inr other ↦ inr (inl (exact i other))
  ]
  one_shard p key j g k i a (inr (quiet, own)) = elim (Bool-cases (key_eq key i)) [
    | inl same ↦
        subst (λ l. Seen p l (at m.shards j) g.shard) ((key_eq_iff key i).0 same)
          (ground (arith, quiet, own))
    | inr other ↦ ground (arith, quiet, a.items i other, a.order i other)
  ]

  written-others :
      (p : Pc A) (key : Key) (j : ℕ) (g : Held A) (k : ℕ) (i : Key)
      → j < length m.shards
      → Alters key (local m j) g k
      → Own p key j g
      → (subject p ≡ some i)
        ⊎ ((seen o n (set m.shards j g.shard) i ≡ seen o n m.shards i)
            ⊎ ((subject p ≡ none) × (seen o n (set m.shards j g.shard) i ≡ none)))
  written-others p key j g k i inside a own = elim (Bool-cases (shard_for n i == j)) [
    | inr other ↦ inr (inl (ap (value_at o i) (at-set_ne m.shards j (shard_for n i) g.shard other)))
    | inl same ↦
        let home : shard_for n i ≡ j = (==_iff (shard_for n i) j).0 same in
        let now : at (set m.shards j g.shard) j ≡ g.shard =
          get_or-set_self m.shards j g.shard empty_shard inside in
        subst (λ c. Seen p i (at m.shards c) (at (set m.shards j g.shard) c)) (sym home)
          (subst (Seen p i (at m.shards j)) (sym now) (one_shard p key j g k i a own))
  ]

  module _ (known : Known) (p p' : Pc A) where
    -- The shards stay.
    pub leaves_shards :
        (m' : Shared A)
        → m'.shards ≡ m.shards
        → pos_part m'.live + neg_part m.live + owed p ≡ neg_part m'.live + pos_part m.live + owed p'
        → (m'.live ≤ℤ m.live) ⊎ ((o.max_keys ≤ℤ pos 0) ⊎ (m'.live ≤ℤ o.max_keys))
        → IsFresh o n m.shards p'
        → Locks t m.owner (holds p) m'.owner (holds p')
        → Sweeps t m.sweeper (sweeps p) m'.sweeper (sweeps p')
        → Effect o n t m p m' p'
    leaves_shards m' e counted bounded fresh locks sweep = record {
      sound = subst AllSound (sym e) known.sound;
      mode = subst (AllInMode o) (sym e) known.mode;
      as_many = ap length e;
      counted = omega (arith, counted, ap total e);
      bounded = bounded;
      fresh = subst (λ xs. IsFresh o n xs p') (sym e) fresh;
      elsewhere = λ j. inr (ap (λ xs. at xs j) e);
      others = λ k. inr (inl (ap (λ xs. seen o n xs k) e));
      locks = locks;
      sweep = sweep;
    }

    -- Nothing but the goroutine itself moves.
    pub moves_only :
        owed p' ≡ owed p
        → IsFresh o n m.shards p'
        → holds p' ≡ holds p
        → sweeps p' ≡ sweeps p
        → Effect o n t m p m p'
    moves_only e fresh h s =
        leaves_shards m refl (omega (arith, e)) (inl (omega arith)) fresh
          (Locks.keeps (λ k. refl) h) (Sweeps.keeps refl s)

    pub acquires :
        (j : ℕ)
        → owed p' ≡ owed p
        → IsFresh o n m.shards p'
        → holds p ≡ none
        → holds p' ≡ some j
        → sweeps p' ≡ sweeps p
        → Good p (acquire t j m p')
    unfolding acquire
    acquires j e fresh h h' s = elim (Option-cases (m.owner j)) [
      | inr (u, taken) ↦ rw (taken, acquire) tt
      | inl free ↦
          rw (free, acquire)
            (leaves_shards (take_lock t j m) refl (omega (arith, e)) (inl (omega arith)) fresh
              (Locks.takes j (λ k. refl) free h h') (Sweeps.keeps refl s))
    ]

    pub releases :
        (j : ℕ)
        → owed p' ≡ owed p
        → IsFresh o n m.shards p'
        → holds p ≡ some j
        → holds p' ≡ none
        → sweeps p' ≡ sweeps p
        → Effect o n t m p (free_lock j m) p'
    releases j e fresh h h' s =
        leaves_shards (free_lock j m) refl (omega (arith, e)) (inl (omega arith)) fresh
          (Locks.frees j (λ k. refl) h h') (Sweeps.keeps refl s)

    module _ (key : Key) (j k : ℕ) (g : Held A) (inside : j < length m.shards) where
      -- The shard that the goroutine holds is written, with `k` keys more and `debt g` removed.
      pub writes :
          holds p ≡ some j
          → Alters key (local m j) g k
          → Own p key j g
          → unused o g.shard ≡ 0
          → owed p' + k ≡ owed p + debt g
          → IsFresh o n (set m.shards j g.shard) p'
          → holds p' ≡ holds p
          → sweeps p' ≡ sweeps p
          → Effect o n t m p (put m j g) p'
      writes h a own e owes fresh h' s =
          let w = Moves-set o key m.shards j g (pos 0) 0 k inside known.sound known.mode e a in
          let falls : pos_part g.live ≡ 0 = ground (arith, a.counted, a.smaller) in
          record {
            sound = w.sound;
            mode = w.mode;
            as_many = w.as_many;
            counted = omega (arith, w.counted, owes, falls);
            bounded = inl (omega arith);
            fresh = fresh;
            elsewhere = λ i. elim (Bool-cases (i == j)) [
              | inl same ↦ inl (h ∙ ap some (sym ((==_iff i j).0 same)))
              | inr other ↦ inr (at-set_ne m.shards j i g.shard other)
            ];
            others = λ i. written-others p key j g k i inside a own;
            locks = Locks.keeps (λ i. refl) h';
            sweep = Sweeps.keeps refl s;
          }
