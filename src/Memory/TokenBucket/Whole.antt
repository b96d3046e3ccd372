-- ===== src/Memory/TokenBucket/Whole.antt =====
-- memory/token_bucket.go on whole numbers: with a whole capacity and rate, and requests that are whole
-- seconds apart, the floating-point bucket is the bucket of natural numbers, which bounds its grants.
use kaka.Prelude.{
  ℕ, ◌+◌, ◌-◌, ◌*◌, ◌≤◌, ◌≡◌, refl, sym, ap, ◌∙◌, pos, Bool, inl, inr, Bool-cases, List, [], ◌∷◌,
  leb, arith,
}
use mathlib.Core.Path.{ap₂}
use kaka.Core.{Result}
use kaka.Clock.{Time}
use kaka.Double.{Double, IsIeee, nat, whole_limit}
use kaka.Memory.Numeric.{remaining_floor_whole}
use kaka.Memory.Numeric.Whole.{
  level, count_verdicts, level-le, grants-le, grants, sum, Modest, AllModest, later, time_sub-later,
  seconds_whole,
}
use kaka.Memory.TokenBucket.{Bucket, refilled, refill_and_decide, full_bucket}

module _ {W : Type 0} ⦃d : Double W⦄ where
  -- The floating-point bucket over the same requests.
  pub verdicts : W → W → Bucket W → List ℕ → List Bool
  verdicts capacity rate b [] = []
  verdicts capacity rate b (k ∷ ks) =
      let (c, r) = refill_and_decide capacity rate b (later b.last_refilled k) in
      r.allowed ∷ verdicts capacity rate c ks

  module _ (laws : IsIeee W) where
    module _ (cap rate t k : ℕ) (last : Time) (few : t ≤ cap) (rate_fits : rate ≤ whole_limit)
        (modest : Modest cap rate k) where
      abbrev bucket : Bucket W
      bucket = record { tokens = nat t; last_refilled = last }

      refilled-level :
          refilled (nat cap) (nat rate) bucket (later last k) ≡ nat (level cap rate t k)
      unfolding refilled level
      refilled-level =
          let gap : t + k * rate ≤ whole_limit = omega (arith, modest.0) in
          let cap_fits : cap ≤ whole_limit = omega (arith, modest.0) in
          rw
            (
              time_sub-later laws last k modest.2,
              seconds_whole laws k modest.1,
              laws.mul_whole k rate modest.1 rate_fits (omega (arith, gap)),
              laws.add_whole t (k * rate) gap,
              laws.lt_whole cap (t + k * rate) cap_fits gap,
            )
            (ground arith)

      -- What the bucket is after the decision, and what it answers.
      pub record Step (c : Bucket W) (r : Result) : Type 0 where
        pub tokens : c.tokens ≡ nat (level cap rate t k - 1)
        pub stamped : c.last_refilled ≡ later last k
        pub verdict : r.allowed ≡ leb 1 (level cap rate t k)
        pub remaining : r.remaining ≡ pos (level cap rate t k - 1)

      pub refill_and_decide-Step :
          Step
            (refill_and_decide (nat cap) (nat rate) bucket (later last k)).0
            (refill_and_decide (nat cap) (nat rate) bucket (later last k)).1
      unfolding refill_and_decide
      refill_and_decide-Step =
          let n = level cap rate t k in
          let cap_fits : cap ≤ whole_limit = omega (arith, modest.0) in
          let fits : n ≤ whole_limit = omega (arith, level-le cap rate t k) in
          let test : d.le (nat 1) (nat n) ≡ leb 1 n = laws.le_whole 1 n (omega arith) fits in
          elim (Bool-cases (leb 1 n)) [
            | inl enough ↦
                rw (refilled-level, test, enough, refill_and_decide)
                  (record {
                    tokens = laws.sub_whole n 1 (ground arith) fits;
                    stamped = refl;
                    verdict = sym enough;
                    remaining =
                        rw (laws.sub_whole n 1 (ground arith) fits)
                          (remaining_floor_whole laws (n - 1) (omega arith));
                  })
            | inr less ↦
                rw (refilled-level, test, less, refill_and_decide)
                  (record {
                    tokens = ap nat (ground arith);
                    stamped = refl;
                    verdict = sym less;
                    remaining = ap pos (ground arith);
                  })
          ]

    module _ (cap rate : ℕ) (rate_fits : rate ≤ whole_limit) where
      -- The floating-point bucket gives the verdicts of the bucket of natural numbers.
      pub verdicts-count_verdicts :
          (t : ℕ) (last : Time) (ks : List ℕ)
          → t ≤ cap
          → AllModest cap rate ks
          → verdicts (nat cap) (nat rate) (record { tokens = nat t; last_refilled = last }) ks
            ≡ count_verdicts cap rate t ks
      unfolding verdicts count_verdicts
      verdicts-count_verdicts t last [] few modest = refl
      verdicts-count_verdicts t last (k ∷ ks) few modest =
          let step = refill_and_decide-Step cap rate t k last few rate_fits modest.0 in
          let n = level cap rate t k in
          let c =
            (refill_and_decide (nat cap) (nat rate)
              (record { tokens = nat t; last_refilled = last }) (later last k)).0 in
          let same : c ≡ record { tokens = nat (n - 1); last_refilled = later last k } =
            ap₂ (λ a b. record { tokens = a; last_refilled = b }) step.tokens step.stamped in
          ap₂ ◌∷◌ step.verdict (
            ap (λ b. verdicts (nat cap) (nat rate) b ks) same
            ∙ verdicts-count_verdicts (n - 1) (later last k) ks
                (omega (arith, level-le cap rate t k)) modest.1)

-- From a full bucket, with a whole capacity and rate and requests that are whole seconds apart, the
-- verdicts are those of a bucket of natural numbers, and no run of requests gets more than the
-- capacity and what the rate brought in the meantime. (As long as the numbers stay below 2 ^ 53, and
-- each gap is a time.Duration.)
pub verdicts_quota :
    {W : Type 0} ⦃d : Double W⦄ (laws : IsIeee W) (cap rate : ℕ) (first : Time) (ks : List ℕ)
    → rate ≤ whole_limit
    → AllModest cap rate ks
    → (verdicts {W = W} (nat cap) (nat rate) (full_bucket (nat cap) first) ks
        ≡ count_verdicts cap rate cap ks)
      × (grants (verdicts {W = W} (nat cap) (nat rate) (full_bucket (nat cap) first) ks)
          ≤ cap + sum ks * rate)
verdicts_quota laws cap rate first ks rate_fits modest =
    let same = verdicts-count_verdicts laws cap rate rate_fits cap first ks (omega arith) modest in
    (same, rw same (grants-le cap rate cap ks))
