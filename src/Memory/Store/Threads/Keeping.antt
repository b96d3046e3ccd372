-- ===== src/Memory/Store/Threads/Keeping.antt =====
-- memory/sharded_store.go: a turn with such an effect keeps the invariant.
use kaka.Prelude.{
  ℕ, ◌+◌, ◌≡◌, refl, sym, ap, ◌∙◌, ◌⊎◌, inl, inr, pos, pos_part, neg_part, eq_of_parts, Bool, true,
  false, Option, some, List, get_elem?, set, ◌==◌, ==_iff, arith,
}
use mathlib.Core.Path.{subst}
use mathlib.Core.Option.{some-injective}
use kaka.Memory.Options.{Options}
use kaka.Memory.Shard.{Shard}
use kaka.Memory.Store.Thins.{total, at}
use kaka.Memory.Store.Threads.{
  Pc, idle, waiting, looking, serving, leaving, reserving, trying, claiming, sweeping, checking,
  sweep_at, sweep_in, sweep_out, outside, evict_at, evict_in, evict_out, relocking, paying,
  counting, Shared,
}
use kaka.Memory.Store.Threads.Owing.{
  holds, sweeps, owing, owing-set, get_elem?-set_cases, get_elem?-set_self, get_elem?-set_ne,
}
use kaka.Memory.Store.Threads.Inv.{IsFresh, Inv, Locks, Sweeps, Effect}

module _ {t : ℕ} {owner owner' : ℕ → Option ℕ} {h h' : Option ℕ} where
  own_lock :
      Locks t owner h owner' h'
      → (j : ℕ) → h' ≡ some j
      → (h ≡ some j → owner j ≡ some t)
      → owner' j ≡ some t
  own_lock (Locks.keeps o e) j e' known = o j ∙ known (sym e ∙ e')
  own_lock (Locks.takes i o free e e1) j e' known = ground (arith, o j)
  own_lock (Locks.frees i o e e1) j e' known = ground arith

  other_lock :
      Locks t owner h owner' h'
      → (u j : ℕ) → u == t ≡ false
      → owner j ≡ some u
      → (h ≡ some j → owner j ≡ some t)
      → owner' j ≡ some u
  other_lock (Locks.keeps o e) u j other e' known = o j ∙ e'
  other_lock (Locks.takes i o free e e1) u j other e' known = ground (arith, o j)
  other_lock (Locks.frees i o e e1) u j other e' known = ground (arith, known, o j)

  -- Who holds a lock now.
  lock_holder :
      Locks t owner h owner' h'
      → (u j : ℕ) → owner' j ≡ some u
      → (owner j ≡ some t → h ≡ some j)
      → ((u == t ≡ true) × (h' ≡ some j)) ⊎ ((u == t ≡ false) × (owner j ≡ some u))
  lock_holder (Locks.keeps o e) u j e' known = ground (arith, known, o j)
  lock_holder (Locks.takes i o free e e1) u j e' known = ground (arith, known, o j)
  lock_holder (Locks.frees i o e e1) u j e' known = ground (arith, known, o j)

module _ {t : ℕ} {sweeper sweeper' : Option ℕ} {b b' : Bool} where
  own_sweep :
      Sweeps t sweeper b sweeper' b' → b' ≡ true → (b ≡ true → sweeper ≡ some t) → sweeper' ≡ some t
  own_sweep (Sweeps.keeps o e) e' known = o ∙ known (sym e ∙ e')
  own_sweep (Sweeps.takes o free e) e' known = o
  own_sweep (Sweeps.frees o e e1) e' known = ground arith

  other_sweep :
      Sweeps t sweeper b sweeper' b'
      → (u : ℕ) → u == t ≡ false
      → sweeper ≡ some u
      → (b ≡ true → sweeper ≡ some t)
      → sweeper' ≡ some u
  other_sweep (Sweeps.keeps o e) u other e' known = o ∙ e'
  other_sweep (Sweeps.takes o free e) u other e' known = ground arith
  other_sweep (Sweeps.frees o e e1) u other e' known = ground (arith, known)

  sweep_holder :
      Sweeps t sweeper b sweeper' b'
      → (u : ℕ) → sweeper' ≡ some u
      → (sweeper ≡ some t → b ≡ true)
      → ((u == t ≡ true) × (b' ≡ true)) ⊎ ((u == t ≡ false) × (sweeper ≡ some u))
  sweep_holder (Sweeps.keeps o e) u e' known = ground (arith, known)
  sweep_holder (Sweeps.takes o free e) u e' known = ground arith
  sweep_holder (Sweeps.frees o e e1) u e' known = ground arith

module _ {A : Type 0} (o : Options) (n : ℕ) where
  -- Whose shard stays, has the locals of before.
  IsFresh-stays :
      (xs ys : List (Shard A)) (q : Pc A)
      → ((j : ℕ) → holds q ≡ some j → at ys j ≡ at xs j)
      → IsFresh o n xs q
      → IsFresh o n ys q
  unfolding holds
  IsFresh-stays xs ys idle stays f = tt
  IsFresh-stays xs ys (serving v r) stays f = (f.0, rw (stays r.home refl) f.1)
  IsFresh-stays xs ys (trying swept k r) stays f = f
  IsFresh-stays xs ys (sweep_in j r) stays f = f
  IsFresh-stays xs ys (evict_in j r) stays f = f
  IsFresh-stays xs ys (waiting r) stays f = f
  IsFresh-stays xs ys (looking r) stays f = f
  IsFresh-stays xs ys (leaving r) stays f = f
  IsFresh-stays xs ys (reserving swept r) stays f = f
  IsFresh-stays xs ys (claiming r) stays f = f
  IsFresh-stays xs ys (sweeping r) stays f = f
  IsFresh-stays xs ys (checking r) stays f = f
  IsFresh-stays xs ys (sweep_at j r) stays f = f
  IsFresh-stays xs ys (sweep_out j r) stays f = f
  IsFresh-stays xs ys (outside r) stays f = f
  IsFresh-stays xs ys (evict_at j r) stays f = f
  IsFresh-stays xs ys (evict_out j done r) stays f = f
  IsFresh-stays xs ys (relocking r) stays f = f
  IsFresh-stays xs ys (paying k p) stays f = IsFresh-stays xs ys p stays f
  IsFresh-stays xs ys (counting p) stays f = IsFresh-stays xs ys p stays f

  module _ {t : ℕ} {m m' : Shared A} {p p' : Pc A} (ps : List (Pc A)) (inv : Inv o n m ps)
      (here : get_elem? ps t ≡ some p) (e : Effect o n t m p m' p') where
    -- A lock of `t` is known to `t`.
    known_lock : (j : ℕ) → m.owner j ≡ some t → holds p ≡ some j
    known_lock j owns =
        let (q, found, h) = inv.holder t j owns in
        ap holds (some-injective _ _ (sym here ∙ found)) ∙ h

    known_sweep : m.sweeper ≡ some t → sweeps p ≡ true
    known_sweep owns =
        let (q, found, h) = inv.sweeper_is t owns in
        ap sweeps (some-injective _ _ (sym here ∙ found)) ∙ h

    kept_counted : m'.live ≡ pos (total m'.shards + owing (set ps t p'))
    kept_counted = eq_of_parts _ _ (
        omega (
          arith,
          e.counted,
          ap pos_part inv.counted,
          ap neg_part inv.counted,
          owing-set ps t p p' here,
        ))

    kept_locals : (u : ℕ) (q : Pc A) → get_elem? (set ps t p') u ≡ some q → IsFresh o n m'.shards q
    kept_locals u q found = elim (get_elem?-set_cases ps t u p' q found) [
      | inl (own, same) ↦ subst (IsFresh o n m'.shards) same e.fresh
      | inr (other, before) ↦
          IsFresh-stays m.shards m'.shards q
            (λ j h. elim (e.elsewhere j) [
              | inl mine ↦
                  absurd (ground (arith, inv.held t j p here mine, inv.held u j q before h, other))
              | inr same ↦ same
            ])
            (inv.fresh u q before)
    ]

    kept_held :
        (u j : ℕ) (q : Pc A)
        → get_elem? (set ps t p') u ≡ some q
        → holds q ≡ some j
        → m'.owner j ≡ some u
    kept_held u j q found h = elim (get_elem?-set_cases ps t u p' q found) [
      | inl (own, same) ↦
          subst (λ w. m'.owner j ≡ some w) (sym ((==_iff u t).0 own))
            (own_lock e.locks j (ap holds same ∙ h) (inv.held t j p here))
      | inr (other, before) ↦
          other_lock e.locks u j other (inv.held u j q before h) (inv.held t j p here)
    ]

    kept_holder :
        (u j : ℕ)
        → m'.owner j ≡ some u
        → (q : Pc A) × (get_elem? (set ps t p') u ≡ some q) × (holds q ≡ some j)
    kept_holder u j owns = elim (lock_holder e.locks u j owns (known_lock j)) [
      | inl (own, h) ↦ (
        p',
        ap (get_elem? (set ps t p')) ((==_iff u t).0 own) ∙ get_elem?-set_self ps t p p' here,
        h,
      )
      | inr (other, before) ↦
          let (q, found, h) = inv.holder u j before in
          (q, get_elem?-set_ne ps t u p' other ∙ found, h)
    ]

    kept_sweeping :
        (u : ℕ) (q : Pc A)
        → get_elem? (set ps t p') u ≡ some q
        → sweeps q ≡ true
        → m'.sweeper ≡ some u
    kept_sweeping u q found h = elim (get_elem?-set_cases ps t u p' q found) [
      | inl (own, same) ↦
          subst (λ w. m'.sweeper ≡ some w) (sym ((==_iff u t).0 own))
            (own_sweep e.sweep (ap sweeps same ∙ h) (inv.sweeping_by t p here))
      | inr (other, before) ↦
          other_sweep e.sweep u other (inv.sweeping_by u q before h) (inv.sweeping_by t p here)
    ]

    kept_sweeper :
        (u : ℕ)
        → m'.sweeper ≡ some u
        → (q : Pc A) × (get_elem? (set ps t p') u ≡ some q) × (sweeps q ≡ true)
    kept_sweeper u owns = elim (sweep_holder e.sweep u owns known_sweep) [
      | inl (own, h) ↦ (
        p',
        ap (get_elem? (set ps t p')) ((==_iff u t).0 own) ∙ get_elem?-set_self ps t p p' here,
        h,
      )
      | inr (other, before) ↦
          let (q, found, h) = inv.sweeper_is u before in
          (q, get_elem?-set_ne ps t u p' other ∙ found, h)
    ]

    pub Effect-Inv : Inv o n m' (set ps t p')
    Effect-Inv = record {
      sound = e.sound;
      mode = e.mode;
      as_many = e.as_many ∙ inv.as_many;
      counted = kept_counted;
      bounded = ground (arith, e.bounded, inv.bounded);
      fresh = kept_locals;
      held = kept_held;
      holder = kept_holder;
      sweeping_by = kept_sweeping;
      sweeper_is = kept_sweeper;
    }
