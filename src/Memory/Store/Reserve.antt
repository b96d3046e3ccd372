-- ===== src/Memory/Store/Reserve.antt =====
-- memory/sharded_store.go, `reserveSlot`: three rounds of its loop are enough, in EvictLRU mode it always
-- gets a slot, in EvictReject mode it gives up on a full store alone, and the counter stays exact.
use kaka.Prelude.{
  ℕ, zero, suc, ◌<◌, ◌≡◌, refl, ◌∙◌, sym, ap, ◌⊎◌, inl, inr, ℤ, pos, ◌+ℤ◌, ◌≤ℤ◌, ◌<ℤ◌, +ℤ_parts,
  eq_of_parts, Bool, true, false, Option, none, some, List, [], ◌∷◌, length, set, if◌then◌else◌,
  Bool-cases, arith, ltb_ℤ, leb_ℤ, key_eq_self,
}
use mathlib.Core.Path.{subst}
use kaka.Core.{Key}
use kaka.Clock.{Time}
use kaka.Memory.Options.{Options}
use kaka.Memory.Shard.Lru.{entry_of}
use kaka.Memory.Shard.{Shard, Element, Held, KeyEntry, size, evict_from}
use kaka.Memory.Shard.Sound.{IsSound, Shrinks, Shrinks-refl}
use kaka.Memory.Shard.Cleanup.{evict_from-Shrinks}
use kaka.Memory.Store.{
  Store, is_lru, held, put_back, sweep_expired, evict_any_other, reserve_from, reserve_slot,
}
use kaka.Memory.Store.Thins.{
  AllSound, AllInMode, total, at, Thins, Thins-refl, Thins-trans, Thins-cons, sweep_expired-Thins,
  evict_any_other-Thins,
}

module _ {A : Type 0} where
  pub at-IsSound :
      (shs : List (Shard A)) (i : ℕ) → AllSound shs → i < length shs → IsSound (at shs i)
  at-IsSound [] i s h = absurd (omega arith)
  at-IsSound (sh ∷ shs) zero s h = s.0
  at-IsSound (sh ∷ shs) (suc i) s h = at-IsSound shs i s.1 (omega arith)

  -- What removes keys of one shard, under its lock.
  pub Thins-set :
      (o : Options) (xs : List (Shard A)) (i : ℕ) (sh : Shard A) (l l' : ℤ) (v v' : ℕ)
      → i < length xs
      → AllSound xs
      → AllInMode o xs
      → Shrinks
          (record { shard = at xs i; live = l; evicts = v })
          (record { shard = sh; live = l'; evicts = v' })
      → Thins o xs l (set xs i sh) l'
  Thins-set o [] i sh l l' v v' h s m a = absurd (omega arith)
  Thins-set o (x ∷ xs) zero sh l l' v v' h s m a =
      Thins-cons {v = v} {v' = v'} a m.0 (Thins-refl o xs l' s.1 m.1)
  Thins-set o (x ∷ xs) (suc i) sh l l' v v' h s m a =
      Thins-cons {v = v} {v' = v} (Shrinks-refl (record { shard = x; live = l; evicts = v }) s.0)
        m.0 (Thins-set o xs i sh l l' v v' (omega arith) s.1 m.1 a)

  all_absent : (es : List (Element A)) → ((k : Key) → entry_of k es ≡ none) → es ≡ []
  unfolding entry_of
  all_absent [] h = refl
  all_absent (e ∷ es) h = absurd (ground (arith, h e.entry.key, key_eq_self e.entry.key))

  -- A shard with no element stays so.
  still_empty :
      {o : Options} {xs ys : List (Shard A)} {l m : ℤ} (i : ℕ)
      → Thins o xs l ys m
      → (at xs i).order ≡ []
      → (at ys i).order ≡ []
  unfolding entry_of
  still_empty {xs} {ys} i a empty =
      all_absent (at ys i).order (λ k. ground (arith, a.order i k, ap (entry_of k) empty))

module _ {A : Type 0} (visit : Time → List (Key × KeyEntry A) → List (Key × KeyEntry A))
    (o : Options) (now : Time) (i : ℕ) where
  -- A store whose counter is exact.
  pub record Exact (s : Store A) : Type 0 where
    pub sound : AllSound s.shards
    pub mode : AllInMode o s.shards
    pub live : s.live ≡ pos (total s.shards)
    pub in_range : i < length s.shards

  Exact-Thins :
      {s : Store A} (t : Store A) → Exact s → Thins o s.shards s.live t.shards t.live → Exact t
  Exact-Thins t e a = record {
    sound = a.sound;
    mode = a.mode;
    live = eq_of_parts _ _ (ground (arith, a.counted, e.live));
    in_range = omega (arith, e.in_range, a.as_many);
  }

  -- What the loop returns: the slot is counted in `t.live`, and not yet taken by a key.
  pub record Reserved (s t : Store A) (granted : Bool) : Type 0 where
    pub spare : ℤ
    pub thins : Thins o s.shards s.live t.shards spare
    pub paid : t.live ≡ (if granted then spare +ℤ pos 1 else spare)
    pub within : (o.max_keys ≤ℤ pos 0) ⊎ (t.live ≤ℤ o.max_keys)
    pub verdict : (granted ≡ true) ⊎ ((is_lru o ≡ false) × (t.live ≡ o.max_keys))

  -- A store that was refused a slot has an exact counter.
  pub Exact-Reserved : {s t : Store A} → Exact s → Reserved s t false → Exact t
  Exact-Reserved e r = record {
    sound = r.thins.sound;
    mode = r.thins.mode;
    live = r.paid ∙ eq_of_parts _ _ (ground (arith, r.thins.counted, e.live));
    in_range = omega (arith, e.in_range, r.thins.as_many);
  }

  abbrev Returns : Store A → Option (Store A × Bool) → Type 0
  Returns s r = (t : Store A) × (granted : Bool) × (r ≡ some (t, granted)) × Reserved s t granted

  Returns-trans :
      (s t : Store A) (r : Option (Store A × Bool))
      → Thins o s.shards s.live t.shards t.live
      → Returns t r
      → Returns s r
  Returns-trans s t r a (u, granted, e, b) = (
    u,
    granted,
    e,
    record {
      spare = b.spare;
      thins = Thins-trans a b.thins;
      paid = b.paid;
      within = b.within;
      verdict = b.verdict;
    },
  )

  -- There is room: the compare-and-swap takes the slot.
  round_room :
      (fuel : ℕ) (swept : Bool) (s : Store A)
      → Exact s
      → s.live <ℤ o.max_keys
      → Returns s (reserve_from visit o now (suc fuel) i swept s)
  unfolding reserve_from
  round_room fuel swept s e h = (
    record s { live = s.live +ℤ pos 1 },
    true,
    ground arith,
    record {
      spare = s.live;
      thins = Thins-refl o s.shards s.live e.sound e.mode;
      paid = refl;
      within = inr (omega (arith, +ℤ_parts s.live (pos 1)));
      verdict = inl refl;
    },
  )

  module _ (s : Store A) (e : Exact s) (positive : pos 0 <ℤ o.max_keys)
      (bounded : s.live ≤ℤ o.max_keys) where
    -- EvictReject, after the sweep.
    round_denied :
        (fuel : ℕ) → is_lru o ≡ false → Returns s (reserve_from visit o now (suc fuel) i true s)
    unfolding reserve_from
    round_denied fuel reject = elim (Bool-cases (ltb_ℤ s.live o.max_keys)) [
      | inl room ↦ round_room fuel true s e (ground arith)
      | inr full ↦ (
        s,
        false,
        rw (full, reject, reserve_from),
        record {
          spare = s.live;
          thins = Thins-refl o s.shards s.live e.sound e.mode;
          paid = refl;
          within = inr bounded;
          verdict = inr (reject, eq_of_parts _ _ (ground arith));
        },
      )
    ]

    swept-Exact : Exact (sweep_expired visit o now s)
    swept-Exact = Exact-Thins _ e (sweep_expired-Thins visit o now s e.sound e.mode)

    swept-Thins :
        Thins o s.shards s.live
          (sweep_expired visit o now s).shards
          (sweep_expired visit o now s).live
    swept-Thins = sweep_expired-Thins visit o now s e.sound e.mode

    swept_bounded : (sweep_expired visit o now s).live ≤ℤ o.max_keys
    swept_bounded = ground (arith, swept-Exact.live, e.live, swept-Thins.smaller)

  module _ (s : Store A) (e : Exact s) (positive : pos 0 <ℤ o.max_keys)
      (bounded : s.live ≤ℤ o.max_keys) where
    abbrev swept : Store A
    swept = sweep_expired visit o now s

    step_reject :
        (fuel : ℕ)
        → is_lru o ≡ false
        → ltb_ℤ s.live o.max_keys ≡ false
        → reserve_from visit o now (suc fuel) i false s ≡ reserve_from visit o now fuel i true swept
    unfolding reserve_from
    step_reject fuel reject full = rw (full, reject)

    step_here :
        (fuel : ℕ) (flag : Bool) (h : Held A)
        → is_lru o ≡ true
        → ltb_ℤ s.live o.max_keys ≡ false
        → evict_from (held s i) ≡ some h
        → reserve_from visit o now (suc fuel) i flag s
          ≡ reserve_from visit o now fuel i flag (put_back s i h)
    unfolding reserve_from
    step_here fuel flag h lru full gone = rw (full, lru, gone)

    step_there :
        (fuel : ℕ)
        → is_lru o ≡ true
        → ltb_ℤ s.live o.max_keys ≡ false
        → evict_from (held s i) ≡ none
        → reserve_from visit o now (suc fuel) i false s
          ≡ reserve_from visit o now fuel i true
              (if leb_ℤ o.max_keys swept.live then evict_any_other i swept else swept)
    unfolding reserve_from
    step_there fuel lru full fails = rw (full, lru, fails)

    round_reject :
        is_lru o ≡ false
        → ltb_ℤ s.live o.max_keys ≡ false
        → Returns s (reserve_from visit o now 3 i false s)
    round_reject reject full = subst (Returns s) (sym (step_reject 2 reject full)) (
        Returns-trans s swept _ (swept-Thins s e positive bounded) (
          round_denied swept (swept-Exact s e positive bounded) positive
            (swept_bounded s e positive bounded) 1 reject))

    after_evict :
        (fuel : ℕ) (flag : Bool) (t : Store A)
        → Thins o s.shards s.live t.shards t.live
        → total t.shards < total s.shards
        → Returns s (reserve_from visit o now (suc fuel) i flag t)
    after_evict fuel flag t a less =
        let x = Exact-Thins t e a in
        Returns-trans s t _ a (round_room fuel flag t x (ground (arith, x.live, e.live)))

    evict_here :
        (h : Held A)
        → Shrinks (held s i) h
        → suc (size h.shard) ≡ size (held s i).shard
        → Returns s (reserve_from visit o now 2 i false (put_back s i h))
    evict_here h step one =
        let a =
          Thins-set o s.shards i h.shard s.live h.live s.evicts h.evicts e.in_range e.sound e.mode
            step in
        after_evict 1 false (put_back s i h) a (omega (arith, a.counted, step.counted, one))

    evict_there :
        is_lru o ≡ true
        → (held s i).shard.order ≡ []
        → Returns s (
            reserve_from visit o now 2 i true
              (if leb_ℤ o.max_keys swept.live then evict_any_other i swept else swept))
    evict_there lru empty =
        let a = swept-Thins s e positive bounded in
        let x = swept-Exact s e positive bounded in
        elim (Bool-cases (leb_ℤ o.max_keys swept.live)) [
          | inr room ↦
              rw room (Returns-trans s swept _ a (round_room 1 true swept x (ground arith)))
          | inl full ↦
              let (b, progress) =
                evict_any_other-Thins o i swept lru x.sound x.mode (still_empty i a empty) in
              rw full (
                after_evict 1 true (evict_any_other i swept) (Thins-trans a b)
                  (ground (arith, progress, x.live, a.smaller)))
        ]

    round_lru :
        is_lru o ≡ true
        → ltb_ℤ s.live o.max_keys ≡ false
        → Returns s (reserve_from visit o now 3 i false s)
    round_lru lru full =
        elim (evict_from-Shrinks (held s i) (at-IsSound s.shards i e.sound e.in_range)) [
          | inl (fails, empty) ↦
              subst (Returns s) (sym (step_there 2 lru full fails)) (evict_there lru empty)
          | inr (h, gone, step, same, one, counter) ↦
              subst (Returns s) (sym (step_here 2 false h lru full gone))
                (evict_here h step (omega (arith, one, ap length same)))
        ]

    reserve_from-Returns : Returns s (reserve_from visit o now 3 i false s)
    reserve_from-Returns = elim (Bool-cases (ltb_ℤ s.live o.max_keys)) [
      | inl room ↦ round_room 2 false s e (ground arith)
      | inr full ↦ elim (Bool-cases (is_lru o)) [
        | inl lru ↦ round_lru lru full
        | inr reject ↦ round_reject reject full
      ]
    ]

  -- On a store whose counter is exact and within its limit, `reserveSlot` returns; it only removes
  -- keys; a slot that it grants is counted, and the counter stays within the limit; it refuses in
  -- EvictReject mode alone, and only if the limit is reached after the sweep.
  pub reserve_slot-Reserved :
      (s : Store A)
      → Exact s
      → (o.max_keys ≤ℤ pos 0) ⊎ (s.live ≤ℤ o.max_keys)
      → (t : Store A) × (granted : Bool) × (reserve_slot visit o now i s ≡ some (t, granted))
        × Reserved s t granted
  unfolding reserve_slot
  reserve_slot-Reserved s e bound = elim (Bool-cases (leb_ℤ o.max_keys (pos 0))) [
    | inl unlimited ↦ (
      record s { live = s.live +ℤ pos 1 },
      true,
      rw unlimited,
      record {
        spare = s.live;
        thins = Thins-refl o s.shards s.live e.sound e.mode;
        paid = refl;
        within = inl (ground arith);
        verdict = inl refl;
      },
    )
    | inr limited ↦ rw limited (reserve_from-Returns s e (ground arith) (ground arith))
  ]
