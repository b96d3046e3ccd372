-- ===== src/Memory/Store/Threads/Progress.antt =====
-- memory/sharded_store.go with goroutines: no deadlock. A goroutine waits for one lock at a time, and the
-- holder of a shard's lock never waits.
use kaka.Prelude.{
  ℕ, zero, suc, ◌≡◌, refl, ap, ◌⊎◌, inl, inr, true, false, some, List, length, pos_part, get_elem?,
  ltb, ◌==◌, Bool-cases, Option-cases, arith,
}
use kaka.Core.{Key}
use kaka.Clock.{Time}
use kaka.Memory.Options.{Options}
use kaka.Memory.Options.Checks.{Accepted}
use kaka.Memory.Shard.{KeyEntry, evict_from}
use kaka.Memory.Shard.Cleaning.{Ranges}
use kaka.Memory.Store.Threads.{
  Request, Pc, idle, waiting, looking, serving, leaving, reserving, trying, claiming, sweeping,
  checking, sweep_at, sweep_in, sweep_out, outside, evict_at, evict_in, evict_out, relocking,
  paying, counting, Shared, Turn, blocked, panicked, moved, acquire, local, look, claim, look_turn,
  claim_turn, reserve_turn, swap_turn, sweep_turn, check_turn, sweep_at_turn, sweep_in_turn,
  outside_turn, evict_at_turn, evict_in_turn, serve_turn, move, System, launch,
}
use kaka.Memory.Store.Threads.Owing.{holds, sweeps}
use kaka.Memory.Store.Threads.Inv.{Inv}
use kaka.Memory.Store.Threads.Safety.{Steps, Steps-Inv, never_panics}

module _ {A R : Type 0} (visit : Time → List (Key × KeyEntry A) → List (Key × KeyEntry A))
    (o : Options) (create : Time → A) (fn : A → Time → A × R) where
  module _ (t : ℕ) (m : Shared A) where
    -- What a goroutine that waits is waiting for.
    abbrev HeldUp : Pc A → Type 0
    HeldUp p =
        (p ≡ idle)
        ⊎ (((j u : ℕ) × (m.owner j ≡ some u))
            ⊎ ((sweeps p ≡ false) × (u : ℕ) × (m.sweeper ≡ some u)))

    -- Who holds a shard's lock does not wait.
    holder-unblocked :
        (p : Pc A) (j : ℕ) → holds p ≡ some j → ¬ (move visit o create fn t m p ≡ blocked)
    unfolding holds move look_turn claim_turn reserve_turn swap_turn sweep_in_turn serve_turn
        evict_in_turn
    holder-unblocked idle j h e = ground (arith, h)
    holder-unblocked (waiting r) j h e = ground (arith, h)
    holder-unblocked (looking r) j h e =
        elim (Option-cases (look visit o create fn r (local m r.home))) [
          | inl x ↦ ground (arith, e, x)
          | inr (x, f) ↦ ground (arith, e, f)
        ]
    holder-unblocked (serving v r) j h e = ground (arith, e)
    holder-unblocked (leaving r) j h e = ground (arith, e)
    holder-unblocked (reserving swept r) j h e = elim (Option-cases (evict_from (local m r.home))) [
      | inl x ↦ ground (arith, e, x)
      | inr (x, f) ↦ ground (arith, e, f)
    ]
    holder-unblocked (trying swept n r) j h e = ground (arith, e)
    holder-unblocked (claiming r) j h e =
        elim (Option-cases (claim visit o create fn r (local m r.home))) [
          | inl x ↦ ground (arith, e, x)
          | inr (x, f) ↦ ground (arith, e, f)
        ]
    holder-unblocked (sweeping r) j h e = ground (arith, h)
    holder-unblocked (checking r) j h e = ground (arith, h)
    holder-unblocked (sweep_at i r) j h e = ground (arith, h)
    holder-unblocked (sweep_in i r) j h e = ground (arith, e)
    holder-unblocked (sweep_out i r) j h e = ground (arith, e)
    holder-unblocked (outside r) j h e = ground (arith, h)
    holder-unblocked (evict_at i r) j h e = ground (arith, h)
    holder-unblocked (evict_in i r) j h e = elim (Option-cases (evict_from (local m i))) [
      | inl x ↦ ground (arith, e, x)
      | inr (x, f) ↦ ground (arith, e, f)
    ]
    holder-unblocked (evict_out i done r) j h e = ground (arith, e)
    holder-unblocked (relocking r) j h e = ground (arith, h)
    holder-unblocked (paying zero p) j h e = ground (arith, e)
    holder-unblocked (paying (suc k) p) j h e = ground (arith, e)
    holder-unblocked (counting p) j h e = ground (arith, e)

    acquire-blocked :
        (j : ℕ) (p : Pc A) → acquire t j m p ≡ blocked → (u : ℕ) × (m.owner j ≡ some u)
    unfolding acquire
    acquire-blocked j p e = elim (Option-cases (m.owner j)) [
      | inl free ↦ absurd (ground (arith, e, free))
      | inr taken ↦ taken
    ]

    sweep-blocked :
        (r : Request)
        → sweep_turn visit o create fn t m r ≡ blocked
        → (u : ℕ) × (m.sweeper ≡ some u)
    unfolding sweep_turn
    sweep-blocked r e = elim (Option-cases m.sweeper) [
      | inl free ↦ absurd (ground (arith, e, free))
      | inr taken ↦ taken
    ]

    waits_for : (p : Pc A) → move visit o create fn t m p ≡ blocked → HeldUp p
    unfolding holds sweeps move look_turn claim_turn reserve_turn swap_turn check_turn sweep_at_turn
        sweep_in_turn outside_turn evict_at_turn serve_turn evict_in_turn
    waits_for idle e = inl refl
    waits_for (waiting r) e =
        let (u, owns) = acquire-blocked r.home (looking r) e in inr (inl (r.home, u, owns))
    waits_for (looking r) e = absurd (holder-unblocked (looking r) r.home refl e)
    waits_for (serving v r) e = absurd (ground (arith, e))
    waits_for (leaving r) e = absurd (ground (arith, e))
    waits_for (reserving swept r) e = absurd (holder-unblocked (reserving swept r) r.home refl e)
    waits_for (trying swept n r) e = absurd (ground (arith, e))
    waits_for (claiming r) e = absurd (holder-unblocked (claiming r) r.home refl e)
    waits_for (sweeping r) e = let (u, owns) = sweep-blocked r e in inr (inr (refl, u, owns))
    waits_for (checking r) e = absurd (ground (arith, e))
    waits_for (sweep_at i r) e = elim (Bool-cases (ltb i (length m.shards))) [
      | inl more ↦
          let (u, owns) = acquire-blocked i (sweep_in i r) (ground (arith, e, more)) in
          inr (inl (i, u, owns))
      | inr done ↦ absurd (ground (arith, e, done))
    ]
    waits_for (sweep_in i r) e = absurd (ground (arith, e))
    waits_for (sweep_out i r) e = absurd (ground (arith, e))
    waits_for (outside r) e = absurd (ground (arith, e))
    waits_for (evict_at i r) e = elim (Bool-cases (ltb i (length m.shards))) [
      | inl more ↦ elim (Bool-cases (i == r.home)) [
        | inl own ↦ absurd (ground (arith, e, more, own))
        | inr other ↦
            let (u, owns) = acquire-blocked i (evict_in i r) (ground (arith, e, more, other)) in
            inr (inl (i, u, owns))
      ]
      | inr done ↦ absurd (ground (arith, e, done))
    ]
    waits_for (evict_in i r) e = absurd (holder-unblocked (evict_in i r) i refl e)
    waits_for (evict_out i done r) e = absurd (ground (arith, e))
    waits_for (relocking r) e =
        let (u, owns) = acquire-blocked r.home (reserving true r) e in inr (inl (r.home, u, owns))
    waits_for (paying zero p) e = absurd (ground (arith, e))
    waits_for (paying (suc k) p) e = absurd (ground (arith, e))
    waits_for (counting p) e = absurd (ground (arith, e))

  idle-apart : (q : Pc A) → q ≡ idle → ¬ (sweeps q ≡ true)
  unfolding sweeps
  idle-apart q e h = absurd (ground (arith, ap sweeps e, h))

  -- A turn of goroutine `t` that is possible.
  abbrev pub Goes : System visit o create fn → ℕ → Type 0
  Goes s t =
      (p q : Pc A) × (m : Shared A) × (get_elem? s.threads t ≡ some p)
      × (move visit o create fn t s.mem p ≡ moved m q)

  Turn-cases :
      (x : Turn A)
      → (x ≡ blocked) ⊎ ((x ≡ panicked) ⊎ ((m : Shared A) × (q : Pc A) × (x ≡ moved m q)))
  Turn-cases blocked = inl refl
  Turn-cases panicked = inr (inl refl)
  Turn-cases (moved m q) = inr (inr (m, q, refl))

  module _ (ranges : (now : Time) → Ranges (visit now)) (accepted : Accepted o) (k : ℕ)
      (s : System visit o create fn)
      (steps : Steps visit o create fn (launch visit o create fn k) s) where
    inv : Inv o (pos_part o.shards) s.mem s.threads
    inv = Steps-Inv visit o create fn ranges accepted k steps

    free_or_held_up :
        (t : ℕ) (p : Pc A)
        → get_elem? s.threads t ≡ some p
        → Goes s t ⊎ (move visit o create fn t s.mem p ≡ blocked)
    free_or_held_up t p here = elim (Turn-cases (move visit o create fn t s.mem p)) [
      | inl waits ↦ inr waits
      | inr (inl panics) ↦
          absurd (never_panics visit o create fn ranges accepted k s t p steps here panics)
      | inr (inr (m, q, e)) ↦ inl (p, q, m, here, e)
    ]

    -- Whoever holds the lock of a shard can take a turn.
    owner-Goes : (j u : ℕ) → s.mem.owner j ≡ some u → Goes s u
    owner-Goes j u owns =
        let (q, there, h) = inv.holder u j owns in
        elim (free_or_held_up u q there) [
          | inl goes ↦ goes
          | inr waits ↦ absurd (holder-unblocked u s.mem q j h waits)
        ]

    -- In every system that goroutines reach from a new store, when some goroutine is in a call, some
    -- goroutine can take a turn: the locks of the shards and of the sweep cannot deadlock.
    pub no_deadlock :
        (t : ℕ) (p : Pc A) → get_elem? s.threads t ≡ some p → ¬ (p ≡ idle) → (u : ℕ) × Goes s u
    no_deadlock t p here busy = elim (free_or_held_up t p here) [
      | inl goes ↦ (t, goes)
      | inr waits ↦ elim (waits_for t s.mem p waits) [
        | inl rests ↦ absurd (busy rests)
        | inr (inl (j, u, owns)) ↦ (u, owner-Goes j u owns)
        | inr (inr (free, u, owns)) ↦
            let (q, there, h) = inv.sweeper_is u owns in
            elim (free_or_held_up u q there) [
              | inl goes ↦ (u, goes)
              | inr stuck ↦ elim (waits_for u s.mem q stuck) [
                | inl rests ↦ absurd (idle-apart q rests h)
                | inr (inl (j, w, owns')) ↦ (w, owner-Goes j w owns')
                | inr (inr (apart, w, rest)) ↦ absurd (ground (arith, apart, h))
              ]
            ]
      ]
    ]
