-- ===== src/Memory/Store/Threads/Safety.antt =====
-- memory/sharded_store.go with goroutines, from a store that `newShardedStore` made: what holds after
-- any sequence of turns.
use kaka.Prelude.{
  ℕ, zero, suc, ◌+◌, ◌≡◌, ◌≤◌, refl, sym, ap, ◌∙◌, ◌⊎◌, inr, pos, pos_part, ◌≤ℤ◌, some, List,
  length, get_elem?, replicate, arith,
}
use mathlib.Core.Path.{subst}
use mathlib.Core.Option.{some-injective}
use kaka.Core.{Key}
use kaka.Clock.{Time}
use kaka.Memory.Options.{Options}
use kaka.Memory.Options.Checks.{Accepted}
use kaka.Memory.Hash.{shard_for}
use kaka.Memory.Shard.{KeyEntry}
use kaka.Memory.Shard.Cleaning.{Ranges}
use kaka.Memory.Store.{new_store}
use kaka.Memory.Store.Thins.{total, at}
use kaka.Memory.Store.Access.{value_at}
use kaka.Memory.Store.Promise.Fresh.{new_store-Valid, length-shards}
use kaka.Memory.Store.Threads.{
  Request, Pc, idle, waiting, serving, panicked, move, System, Step, ask, turn, drain, launch,
}
use kaka.Memory.Store.Threads.Owing.{holds, sweeps, owed, owing}
use kaka.Memory.Store.Threads.Inv.{Inv, IsFresh}
use kaka.Memory.Store.Threads.Keeping.{Effect-Inv}
use kaka.Memory.Store.Threads.Effects.{Known, Good, moves_only}
use kaka.Memory.Store.Threads.Moving.{move-Good}

get_elem?-replicate :
    {A : Type 0} (k t : ℕ) (x y : A) → get_elem? (replicate k x) t ≡ some y → x ≡ y
get_elem?-replicate zero t x y e = cc
get_elem?-replicate (suc k) zero x y e = some-injective _ _ e
get_elem?-replicate (suc k) (suc t) x y e = get_elem?-replicate k t x y e

owing-idle : (A : Type 0) (k : ℕ) → owing {A = A} (replicate k idle) ≡ 0
unfolding owing owed
owing-idle A zero = refl
owing-idle A (suc k) = omega (arith, owing-idle A k)

module _ {A R : Type 0} (visit : Time → List (Key × KeyEntry A) → List (Key × KeyEntry A))
    (o : Options) (create : Time → A) (fn : A → Time → A × R) where
  -- What goroutines can reach, from a system.
  pub data Steps (s : System visit o create fn) : System visit o create fn → Type 0 where
    start : Steps s s
    after : {u v : System visit o create fn} → Steps s u → Step visit o create fn u v → Steps s v

  module _ (ranges : (now : Time) → Ranges (visit now)) (accepted : Accepted o) where
    abbrev n : ℕ
    n = pos_part o.shards

    launch-Inv :
        (k : ℕ) → Inv o n (launch visit o create fn k).mem (launch visit o create fn k).threads
    unfolding holds sweeps
    launch-Inv k =
        let v = (new_store-Valid A o accepted).0 in
        let all_idle : (t : ℕ) (p : Pc A) → get_elem? (replicate k idle) t ≡ some p → idle ≡ p =
          λ t p e. get_elem?-replicate k t idle p e in
        record {
          sound = v.sound;
          mode = v.mode;
          as_many = length-shards A n;
          counted = ap pos (omega (arith, ap pos_part v.live, owing-idle A k));
          bounded = inr (ground (arith, accepted.keys));
          fresh = λ t p e. subst (IsFresh o n (new_store {A = A} o).shards) (all_idle t p e) tt;
          held = λ t j p e h. absurd (ground (arith, ap holds (all_idle t p e), h));
          holder = λ t j e. absurd (ground (arith, e));
          sweeping_by = λ t p e h. absurd (ground (arith, ap sweeps (all_idle t p e), h));
          sweeper_is = λ t e. absurd (ground (arith, e));
        }

    Step-Inv :
        {s s' : System visit o create fn}
        → Step visit o create fn s s'
        → Inv o n s.mem s.threads
        → Inv o n s'.mem s'.threads
    unfolding holds sweeps owed
    Step-Inv {s} (ask t key now here) inv =
        let known : Known o n t s.mem = record {
          sound = inv.sound;
          mode = inv.mode;
          as_many = inv.as_many;
        } in
        Effect-Inv o n s.threads inv here (
          moves_only o n t s.mem known idle (waiting _) refl (ap (λ i. shard_for i key) inv.as_many)
            refl refl)
    Step-Inv {s} (turn t {p} {p'} {m'} here e) inv =
        let known : Known o n t s.mem = record {
          sound = inv.sound;
          mode = inv.mode;
          as_many = inv.as_many;
        } in
        let (b, le, power) = accepted.power in
        Effect-Inv o n s.threads inv here (
          subst (Good o n t s.mem p) e
            (move-Good visit o create fn ranges n t s.mem known b power p (inv.fresh t p here)))
    Step-Inv drain inv = record {
      sound = inv.sound;
      mode = inv.mode;
      as_many = inv.as_many;
      counted = inv.counted;
      bounded = inv.bounded;
      fresh = inv.fresh;
      held = inv.held;
      holder = inv.holder;
      sweeping_by = inv.sweeping_by;
      sweeper_is = inv.sweeper_is;
    }

    pub Steps-Inv :
        (k : ℕ) {s : System visit o create fn}
        → Steps (launch visit o create fn k) s
        → Inv o n s.mem s.threads
    Steps-Inv k start = launch-Inv k
    Steps-Inv k (after steps step) = Step-Inv step (Steps-Inv k steps)

    -- In every system that goroutines reach from a new store, the counter of live keys is the number of
    -- keys in all shards, with what the goroutines owe; neither passes `MaxKeys`, unless that is no
    -- limit; and when no goroutine is in a call, the counter is the number of keys.
    pub live_exact :
        (k : ℕ) (s : System visit o create fn)
        → Steps (launch visit o create fn k) s
        → (s.mem.live ≡ pos (total s.mem.shards + owing s.threads))
          × ((o.max_keys ≡ pos 0)
              ⊎ ((s.mem.live ≤ℤ o.max_keys) × (total s.mem.shards ≤ pos_part o.max_keys)))
          × (s.threads ≡ replicate (length s.threads) idle → s.mem.live ≡ pos (total s.mem.shards))
    live_exact k s steps =
        let i = Steps-Inv k steps in
        (
          i.counted,
          ground (arith, i.counted, i.bounded, accepted.keys),
          λ e. i.counted ∙ ap pos (omega (arith, ap owing e, owing-idle A (length s.threads))),
        )

    -- In every system that goroutines reach from a new store, two goroutines that hold a shard's lock
    -- hold the locks of two shards.
    pub locks_exclusive :
        (k : ℕ) (s : System visit o create fn) (t u j : ℕ) (p q : Pc A)
        → Steps (launch visit o create fn k) s
        → get_elem? s.threads t ≡ some p
        → get_elem? s.threads u ≡ some q
        → holds p ≡ some j
        → holds q ≡ some j
        → t ≡ u
    locks_exclusive k s t u j p q steps here there h h' =
        let i = Steps-Inv k steps in
        some-injective _ _ (sym (i.held t j p here h) ∙ i.held u j q there h')

    -- In every system that goroutines reach from a new store, the state that a goroutine is about to
    -- pass to `fn` is the one that the store has for the key, and no other goroutine is about to pass
    -- a state of that key.
    pub serves_alone :
        (k : ℕ) (s : System visit o create fn) (t u : ℕ) (v w : A) (r r' : Request)
        → Steps (launch visit o create fn k) s
        → get_elem? s.threads t ≡ some (serving v r)
        → get_elem? s.threads u ≡ some (serving w r')
        → r.key ≡ r'.key
        → (t ≡ u)
          × (value_at o r.key (at s.mem.shards (shard_for (length s.mem.shards) r.key)) ≡ some v)
    unfolding holds
    serves_alone k s t u v w r r' steps here there same =
        let i = Steps-Inv k steps in
        let (placed, stored) = i.fresh t (serving v r) here in
        let (placed', stored') = i.fresh u (serving w r') there in
        let home : r'.home ≡ r.home = placed' ∙ ap (shard_for n) (sym same) ∙ sym placed in
        (
          locks_exclusive k s t u r.home (serving v r) (serving w r') steps here there refl
              (ap some home),
          ap (λ j. value_at o r.key (at s.mem.shards j))
                (ap (λ i. shard_for i r.key) i.as_many ∙ sym placed)
              ∙ stored,
        )

    -- In every system that goroutines reach from a new store, the next turn of a goroutine does not
    -- panic.
    pub never_panics :
        (k : ℕ) (s : System visit o create fn) (t : ℕ) (p : Pc A)
        → Steps (launch visit o create fn k) s
        → get_elem? s.threads t ≡ some p
        → ¬ (move visit o create fn t s.mem p ≡ panicked)
    never_panics k s t p steps here e =
        let i = Steps-Inv k steps in
        let known : Known o n t s.mem = record {
          sound = i.sound;
          mode = i.mode;
          as_many = i.as_many;
        } in
        let (b, le, power) = accepted.power in
        subst (Good o n t s.mem p) e
          (move-Good visit o create fn ranges n t s.mem known b power p (i.fresh t p here))
