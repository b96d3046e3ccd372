-- ===== src/Memory/LeakyBucket/Whole.antt =====
-- memory/leaky_bucket.go on whole numbers: with the same capacity and rate, the leaky bucket decides as
-- the token bucket does, its water being the tokens that are spent.
use kaka.Prelude.{
  ℕ, ◌+◌, ◌-◌, ◌*◌, ◌≤◌, ◌<◌, ◌≡◌, refl, sym, ap, ◌∙◌, pos, Bool, inl, inr, Bool-cases, List, [],
  ◌∷◌, ltb, leb, arith,
}
use mathlib.Core.Path.{ap₂}
use kaka.Core.{Result}
use kaka.Clock.{Time}
use kaka.Double.{Double, IsIeee, nat, whole_limit}
use kaka.Memory.Numeric.{remaining_floor_whole}
use kaka.Memory.Numeric.Whole.{
  level, count_verdicts, level-le, Modest, AllModest, later, time_sub-later, seconds_whole,
}
use kaka.Memory.TokenBucket.{full_bucket}
use kaka.Memory.TokenBucket.Whole as TokenBucket
use kaka.Memory.TokenBucket.Whole.{verdicts_quota}
use kaka.Memory.LeakyBucket.{LeakyState, leaked, leak_and_decide, empty_bucket}

module _ {W : Type 0} ⦃d : Double W⦄ where
  -- The verdicts on requests with these gaps.
  pub verdicts : W → W → LeakyState W → List ℕ → List Bool
  verdicts capacity rate b [] = []
  verdicts capacity rate b (k ∷ ks) =
      let (c, r) = leak_and_decide capacity rate b (later b.last_leak k) in
      r.allowed ∷ verdicts capacity rate c ks

  module _ (laws : IsIeee W) where
    module _ (cap rate t k : ℕ) (last : Time) (few : t ≤ cap) (rate_fits : rate ≤ whole_limit)
        (modest : Modest cap rate k) where
      abbrev bucket : LeakyState W
      bucket = record { water = nat (cap - t); last_leak = last }

      leaked-level : leaked (nat rate) bucket (later last k) ≡ nat (cap - level cap rate t k)
      unfolding leaked level
      leaked-level =
          let fits : cap ≤ whole_limit = omega (arith, modest.0) in
          let loss : k * rate ≤ whole_limit = omega (arith, modest.0) in
          rw
            (
              time_sub-later laws last k modest.2,
              seconds_whole laws k modest.1,
              laws.mul_whole k rate modest.1 rate_fits loss,
            )
            (elim (Bool-cases (ltb (cap - t) (k * rate))) [
              | inl below ↦
                  rw (laws.sub_below (cap - t) (k * rate) (ground arith) loss)
                    (ap nat (ground arith))
              | inr enough ↦
                  rw
                    (
                      laws.sub_whole (cap - t) (k * rate) (ground arith) (omega (arith, fits)),
                      laws.lt_whole (cap - t - k * rate) 0 (omega (arith, fits)) (omega arith),
                    )
                    (ground arith)
            ])

      -- What the bucket is after the decision, and what it answers.
      pub record Step (c : LeakyState W) (r : Result) : Type 0 where
        pub water : c.water ≡ nat (cap - (level cap rate t k - 1))
        pub stamped : c.last_leak ≡ later last k
        pub verdict : r.allowed ≡ leb 1 (level cap rate t k)
        pub remaining : r.remaining ≡ pos (level cap rate t k - 1)

      pub leak_and_decide-Step :
          0 < cap
          → cap < whole_limit
          → Step
              (leak_and_decide (nat cap) (nat rate) bucket (later last k)).0
              (leak_and_decide (nat cap) (nat rate) bucket (later last k)).1
      unfolding leak_and_decide
      leak_and_decide-Step some_room fits =
          let n = level cap rate t k in
          let more = laws.add_whole (cap - n) 1 (omega (arith, fits)) in
          let test : d.le (nat (cap - n + 1)) (nat cap) ≡ leb (cap - n + 1) cap =
            laws.le_whole (cap - n + 1) cap (omega (arith, fits)) (omega (arith, fits)) in
          elim (Bool-cases (leb (cap - n + 1) cap)) [
            | inl enough ↦
                let left : cap - (cap - n + 1) ≡ n - 1 = ground (arith, level-le cap rate t k) in
                rw (leaked-level, more, test, enough, leak_and_decide)
                  (record {
                    water = ap nat (ground (arith, level-le cap rate t k));
                    stamped = refl;
                    verdict = ground arith;
                    remaining =
                        rw
                          (
                            laws.sub_whole cap (cap - n + 1) (ground arith) (omega (arith, fits)),
                            left,
                          )
                          (remaining_floor_whole laws (n - 1)
                            (omega (arith, fits, level-le cap rate t k)));
                  })
            | inr over ↦
                rw (leaked-level, more, test, over, leak_and_decide)
                  (record {
                    water = ap nat (ground (arith, level-le cap rate t k));
                    stamped = refl;
                    verdict = ground (arith, level-le cap rate t k);
                    remaining = ap pos (ground (arith, level-le cap rate t k));
                  })
          ]

    module _ (cap rate : ℕ) (rate_fits : rate ≤ whole_limit) (some_room : 0 < cap)
        (cap_fits : cap < whole_limit) where
      pub verdicts-count_verdicts :
          (t : ℕ) (last : Time) (ks : List ℕ)
          → t ≤ cap
          → AllModest cap rate ks
          → verdicts (nat cap) (nat rate) (record { water = nat (cap - t); last_leak = last }) ks
            ≡ count_verdicts cap rate t ks
      unfolding verdicts count_verdicts
      verdicts-count_verdicts t last [] few modest = refl
      verdicts-count_verdicts t last (k ∷ ks) few modest =
          let step =
            leak_and_decide-Step cap rate t k last few rate_fits modest.0 some_room cap_fits in
          let n = level cap rate t k in
          let b : LeakyState W = record { water = nat (cap - t); last_leak = last } in
          let c = (leak_and_decide (nat cap) (nat rate) b (later last k)).0 in
          let same : c ≡ record { water = nat (cap - (n - 1)); last_leak = later last k } =
            ap₂ (λ a s. record { water = a; last_leak = s }) step.water step.stamped in
          ap₂ ◌∷◌ step.verdict (
            ap (λ x. verdicts (nat cap) (nat rate) x ks) same
            ∙ verdicts-count_verdicts (n - 1) (later last k) ks
                (omega (arith, level-le cap rate t k)) modest.1)

-- From an empty leaky bucket and a full token bucket of the same whole capacity and rate, requests
-- that are whole seconds apart get the same verdicts from both. (As long as the numbers stay below
-- 2 ^ 53, and each gap is a time.Duration.)
pub verdicts_agree :
    {W : Type 0} ⦃d : Double W⦄ (laws : IsIeee W) (cap rate : ℕ) (first : Time) (ks : List ℕ)
    → 0 < cap
    → cap < whole_limit
    → rate ≤ whole_limit
    → AllModest cap rate ks
    → verdicts {W = W} (nat cap) (nat rate) (empty_bucket first) ks
      ≡ TokenBucket.verdicts {W = W} (nat cap) (nat rate) (full_bucket (nat cap) first) ks
verdicts_agree {W} laws cap rate first ks some_room cap_fits rate_fits modest =
    let empty : cap - cap ≡ 0 = omega arith in
    ap (λ w. verdicts {W = W} (nat cap) (nat rate) (record { water = nat w; last_leak = first }) ks)
      (sym empty)
    ∙ verdicts-count_verdicts laws cap rate rate_fits some_room cap_fits cap first ks (omega arith)
        modest
    ∙ sym (verdicts_quota laws cap rate first ks rate_fits modest).0
