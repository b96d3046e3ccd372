-- ===== src/Memory/Store/Threads/Atomic.antt =====
-- memory/sharded_store.go with goroutines, as a map from keys to states that one call at a time updates.
use kaka.Prelude.{
  ℕ, ◌^◌, ◌≡◌, ◌<◌, refl, sym, ap, ◌∙◌, ◌⊎◌, inl, inr, pos_part, false, Option, none, some, List,
  length, get_elem?, key_eq, key_eq_iff, key_eq_self, Bool-cases, arith,
}
use mathlib.Core.Path.{subst}
use kaka.Core.{Key}
use kaka.Clock.{Time}
use kaka.Memory.Options.{Options}
use kaka.Memory.Options.Checks.{Accepted}
use kaka.Memory.Shard.{Shard, KeyEntry}
use kaka.Memory.Shard.Cleaning.{Ranges}
use kaka.Memory.Store.Thins.{at}
use kaka.Memory.Store.Access.{value_at}
use kaka.Memory.Store.Threads.{
  Request, Pc, serving, claiming, Shared, moved, claim_turn, serve_turn, move, System, launch,
}
use kaka.Memory.Store.Threads.Owing.{subject}
use kaka.Memory.Store.Threads.Inv.{seen, IsFresh, Placed, Effect}
use kaka.Memory.Store.Threads.Effects.{Known, Good}
use kaka.Memory.Store.Threads.Moving.{move-Good, home_inside}
use kaka.Memory.Store.Threads.Safety.{Steps, Steps-Inv}
use kaka.Memory.Store.Threads.Writes.{stored, Made, Replaces, claim-Made, serve-replaces}

module _ {A R : Type 0} (visit : Time → List (Key × KeyEntry A) → List (Key × KeyEntry A))
    (o : Options) (create : Time → A) (fn : A → Time → A × R) where
  -- A map from keys to states, where a state is made by `create`, updated by a call of `fn` for a key at
  -- a time, while the other keys keep theirs, or where states go.
  pub data Atomic (before after : Key → Option A) : Option (Key × Time) → Type 0 where
    drops : ((k : Key) → (after k ≡ none) ⊎ (after k ≡ before k)) → Atomic before after none
    makes :
        (key : Key) (now : Time)
        → before key ≡ none
        → after key ≡ some (create now)
        → ((k : Key) → key_eq key k ≡ false → after k ≡ before k)
        → Atomic before after none
    updates :
        (key : Key) (now : Time) (v : A)
        → before key ≡ some v
        → after key ≡ some (fn v now).0
        → ((k : Key) → key_eq key k ≡ false → after k ≡ before k)
        → Atomic before after (some (key, now))

  -- The call of `fn` that the next turn makes.
  unfoldable pub calls : Pc A → Option (Key × Time)
  calls (serving v r) = some (r.key, r.now)
  calls p = none

  -- Which turns write the state of their key.
  kinds :
      (p : Pc A)
      → ((v : A) × (r : Request) × (p ≡ serving v r))
        ⊎ (((r : Request) × (p ≡ claiming r)) ⊎ ((subject p ≡ none) × (calls p ≡ none)))
  unfolding calls subject
  kinds (serving v r) = inl (v, r, refl)
  kinds (claiming r) = inr (inl (r, refl))
  kinds p = inr (inr (refl, refl))

  module _ (n t : ℕ) (m m' : Shared A) (q : Pc A) (known : Known o n t m) (r : Request)
      (placed : Placed n r) (inside : r.home < length m.shards) where
    rest :
        (p : Pc A)
        → Effect o n t m p m' q
        → subject p ≡ some r.key
        → (k : Key) → key_eq r.key k ≡ false
        → seen o n m'.shards k ≡ seen o n m.shards k
    rest p e own k other = elim (e.others k) [
      | inl same ↦ absurd (ground (arith, own, same, other, key_eq_self k))
      | inr (inl y) ↦ y
      | inr (inr (quiet, y)) ↦ absurd (ground (arith, own, quiet))
    ]

    serving-Atomic :
        (v : A)
        → value_at o r.key (at m.shards r.home) ≡ some v
        → serve_turn visit o create fn m v r ≡ moved m' q
        → Effect o n t m (serving v r) m' q
        → Atomic (seen o n m.shards) (seen o n m'.shards) (some (r.key, r.now))
    unfolding serve_turn subject
    serving-Atomic v here moves e =
        let replaced : Replaces visit o create fn n t m known r inside v (moved m' q) =
          subst (Replaces visit o create fn n t m known r inside v) moves (
            stored visit o create fn n t m known r inside _
            ∙ serve-replaces visit o create fn n t m known r inside v here) in
        updates r.key r.now v (subst (λ j. value_at o r.key (at m.shards j) ≡ some v) placed here)
          (subst (λ j. value_at o r.key (at m'.shards j) ≡ some (fn v r.now).0) placed replaced)
          (rest (serving v r) e refl)

    claiming-Atomic :
        claim_turn visit o create fn m r ≡ moved m' q
        → Effect o n t m (claiming r) m' q
        → Atomic (seen o n m.shards) (seen o n m'.shards) none
    unfolding subject
    claiming-Atomic moves e =
        let home : (xs : List (Shard A)) → value_at o r.key (at xs r.home) ≡ seen o n xs r.key =
          λ xs. ap (λ j. value_at o r.key (at xs j)) placed in
        elim (subst (Made visit o create fn n t m known r inside) moves
          (claim-Made visit o create fn n t m known r inside)) [
            | inl same ↦ drops (λ k. elim (Bool-cases (key_eq r.key k)) [
              | inl own ↦ inr (
                  subst (λ l. seen o n m'.shards l ≡ seen o n m.shards l)
                    ((key_eq_iff r.key k).0 own) (sym (home m'.shards) ∙ same ∙ home m.shards))
              | inr other ↦ inr (rest (claiming r) e refl k other)
            ])
            | inr (gone, made) ↦
                makes r.key r.now (sym (home m.shards) ∙ gone) (sym (home m'.shards) ∙ made)
                  (rest (claiming r) e refl)
          ]

  fresh-Atomic :
      (n b t : ℕ) (m m' : Shared A) (q p : Pc A)
      → (ranges : (now : Time) → Ranges (visit now)) → Known o n t m
      → n ≡ 2 ^ b
      → IsFresh o n m.shards p
      → move visit o create fn t m p ≡ moved m' q
      → Effect o n t m p m' q
      → Atomic (seen o n m.shards) (seen o n m'.shards) (calls p)
  unfolding move calls subject
  fresh-Atomic n b t m m' q (serving v r) ranges known power f moves e =
      serving-Atomic n t m m' q known r f.0
        (home_inside visit o create fn ranges n t m known b power r f.0) v f.1 moves e
  fresh-Atomic n b t m m' q (claiming r) ranges known power f moves e =
      claiming-Atomic n t m m' q known r f
        (home_inside visit o create fn ranges n t m known b power r f) moves e
  fresh-Atomic n b t m m' q p ranges known power f moves e = drops (λ k. elim (e.others k) [
    | inl own ↦ absurd (ground (arith, own))
    | inr (inl y) ↦ inr y
    | inr (inr (quiet, y)) ↦ inl y
  ])

  module _ (ranges : (now : Time) → Ranges (visit now)) (accepted : Accepted o) where
    -- In every system that goroutines reach from a new store, the next turn of a goroutine is one step of
    -- the map from keys to states that the shards keep. It is an update by `fn`, of the last state of
    -- that key and of no other, if the goroutine is about to call `fn`; any other turn makes a state that
    -- is missing or removes some.
    pub turn-Atomic :
        (k : ℕ) (s : System visit o create fn) (t : ℕ) (p q : Pc A) (m' : Shared A)
        → Steps visit o create fn (launch visit o create fn k) s
        → get_elem? s.threads t ≡ some p
        → move visit o create fn t s.mem p ≡ moved m' q
        → Atomic
            (seen o (length s.mem.shards) s.mem.shards)
            (seen o (length m'.shards) m'.shards)
            (calls p)
    turn-Atomic k s t p q m' steps here moves =
        let i = Steps-Inv visit o create fn ranges accepted k steps in
        let n = pos_part o.shards in
        let known : Known o n t s.mem = record {
          sound = i.sound;
          mode = i.mode;
          as_many = i.as_many;
        } in
        let (b, le, power) = accepted.power in
        let e : Effect o n t s.mem p m' q =
          subst (Good o n t s.mem p) moves
            (move-Good visit o create fn ranges n t s.mem known b power p (i.fresh t p here)) in
        subst (λ a. Atomic (seen o a s.mem.shards) (seen o (length m'.shards) m'.shards) (calls p))
          (sym i.as_many)
          (subst (λ a. Atomic (seen o n s.mem.shards) (seen o a m'.shards) (calls p))
            (sym (e.as_many ∙ i.as_many))
            (fresh-Atomic n b t s.mem m' q p ranges known power (i.fresh t p here) moves e))
