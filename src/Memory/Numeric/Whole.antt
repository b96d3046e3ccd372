-- ===== src/Memory/Numeric/Whole.antt =====
-- memory/token_bucket.go and memory/leaky_bucket.go: requests that are whole seconds apart, where the
-- floating-point arithmetic of both is that of the natural numbers.
use kaka.Prelude.{
  ℕ, suc, ◌+◌, ◌-◌, ◌*◌, ◌/◌, ◌%◌, ◌≤◌, ◌≡◌, ap, ◌∙◌, pos, ◌+ℤ◌, ◌-ℤ◌, +ℤ_parts, -ℤ_parts,
  eq_of_parts, Bool, List, [], ◌∷◌, ltb, leb, if◌then◌else◌, arith,
}
use mathlib.Core.Path.{ap₂}
use native.Mathlib.Nat.{add-mul}
use kaka.Clock.{Time, time_sub, time_sub_exact}
use kaka.Double.{Double, IsIeee, nat, seconds, nanos_per_second, whole_limit}

unfoldable pub grants : List Bool → ℕ
grants [] = 0
grants (v ∷ vs) = if v then suc (grants vs) else grants vs

unfoldable pub sum : List ℕ → ℕ
sum [] = 0
sum (k ∷ ks) = k + sum ks

-- The bucket of natural numbers, `k` seconds after it held `t` tokens.
unfoldable pub level : ℕ → ℕ → ℕ → ℕ → ℕ
level cap rate t k = if ltb cap (t + k * rate) then cap else t + k * rate

-- The verdicts on requests with these gaps, and the number of grants.
unfoldable pub count_verdicts : ℕ → ℕ → ℕ → List ℕ → List Bool
unfolding level
count_verdicts cap rate t [] = []
count_verdicts cap rate t (k ∷ ks) =
    leb 1 (level cap rate t k) ∷ count_verdicts cap rate (level cap rate t k - 1) ks

pub level-le : (cap rate t k : ℕ) → level cap rate t k ≤ cap
unfolding level
level-le cap rate t k = ground arith

level-le_sum : (cap rate t k : ℕ) → level cap rate t k ≤ t + k * rate
unfolding level
level-le_sum cap rate t k = ground arith

pub grants-le :
    (cap rate t : ℕ) (ks : List ℕ) → grants (count_verdicts cap rate t ks) ≤ t + sum ks * rate
unfolding grants count_verdicts sum
grants-le cap rate t [] = omega arith
grants-le cap rate t (k ∷ ks) = ground (
  arith,
  grants-le cap rate (level cap rate t k - 1) ks,
  level-le_sum cap rate t k,
  add-mul k (sum ks) rate,
)

-- The arithmetic stays among the whole float64 numbers, and a gap is a time.Duration.
abbrev pub Modest : ℕ → ℕ → ℕ → Type 0
Modest cap rate k =
    (cap + k * rate ≤ whole_limit)
    × (k ≤ whole_limit)
    × (k * nanos_per_second ≤ 9_223_372_036_854_775_807)

abbrev pub AllModest : ℕ → ℕ → List ℕ → Type 0
AllModest cap rate [] = Unit {0}
AllModest cap rate (k ∷ ks) = Modest cap rate k × AllModest cap rate ks

abbrev pub later : Time → ℕ → Time
later t k = t +ℤ pos (k * nanos_per_second)

module _ {W : Type 0} ⦃d : Double W⦄ where
  module _ (laws : IsIeee W) where
    pub time_sub-later :
        (t : Time) (k : ℕ)
        → k * nanos_per_second ≤ 9_223_372_036_854_775_807
        → time_sub (later t k) t ≡ pos (k * nanos_per_second)
    time_sub-later t k h =
        let apart : later t k -ℤ t ≡ pos (k * nanos_per_second) =
          eq_of_parts _ _
            (ground (arith, +ℤ_parts t (pos (k * nanos_per_second)), -ℤ_parts (later t k) t)) in
        time_sub_exact (later t k) t (rw apart (omega arith)) (rw apart (omega arith)) ∙ apart

    pub seconds_whole :
        (k : ℕ) → k ≤ whole_limit → ◌≡◌ {A = W} (seconds (pos (k * nanos_per_second))) (nat k)
    unfolding seconds
    seconds_whole k h =
        let whole : k * nanos_per_second / nanos_per_second ≡ k = omega arith in
        let rest : k * nanos_per_second % nanos_per_second ≡ 0 = omega arith in
        let parts : d.add (nat (k * nanos_per_second / nanos_per_second))
              (d.div (nat (k * nanos_per_second % nanos_per_second)) (nat nanos_per_second))
            ≡ d.add (nat k) (d.div (nat 0) (nat nanos_per_second)) =
          ap₂ (λ a b. d.add (nat a) (d.div (nat b) (nat nanos_per_second))) whole rest in
        parts
        ∙ ap (d.add (nat k)) (laws.div_whole nanos_per_second (omega arith) (omega arith))
        ∙ laws.add_whole k 0 (omega arith)
        ∙ ap nat (omega arith)
