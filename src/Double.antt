-- ===== src/Double.antt =====
-- float64 as an interface: the operations that the code uses, and the laws of IEEE 754 that the proofs
-- use. A whole number of at most 2 ^ 53 is a float64, and so are a sum, a difference or a product of
-- such numbers, as long as they stay in that range.
pub mod Whole
use kaka.Prelude.{
  ℕ, zero, suc, ◌+◌, ◌-◌, ◌*◌, ◌/◌, ◌%◌, ◌^◌, ◌≤◌, ◌<◌, ◌≡◌, ◌⊎◌, ℤ, pos, negsuc, ◌≤ℤ◌, Bool, true,
  false, not, ◌&&◌, ltb, leb,
}
use kaka.Clock.{Duration, max_duration}

pub record Double {ℓ} (W : Type ℓ) : Type ℓ where
  pub of_int : ℤ → W  -- float64(i)
  pub epsilon : W  -- 1e-6
  pub le : W → W → Bool
  pub lt : W → W → Bool
  pub is_inf : W → Bool
  pub add : W → W → W
  pub sub : W → W → W
  pub mul : W → W → W
  pub div : W → W → W
  pub abs : W → W
  pub round : W → W
  pub ceil : W → W
  pub to_int : W → ℤ  -- int64(x)

abbrev pub nanos_per_second : ℕ
nanos_per_second = 1_000_000_000

-- A number of nanoseconds below zero.
abbrev pub minus : ℕ → ℤ
minus zero = pos 0
minus (suc n) = negsuc n

module _ {ℓ} {W : Type ℓ} ⦃d : Double W⦄ where
  abbrev pub nat : ℕ → W
  nat n = d.of_int (pos n)

  infix 4 ◌≼◌
  abbrev pub ◌≼◌ : W → W → Type 0
  x ≼ y = d.le x y ≡ true

  -- `math.IsNaN`: NaN is the value that is not `<=` itself.
  abbrev pub is_nan : W → Bool
  is_nan x = not (d.le x x)

  abbrev pub is_finite : W → Bool
  is_finite x = not (is_nan x) && not (d.is_inf x)

  -- `t.Seconds()`: the whole seconds and the rest are converted apart, both towards zero.
  unfoldable pub seconds : Duration → W
  seconds (pos n) =
      d.add (nat (n / nanos_per_second)) (d.div (nat (n % nanos_per_second)) (nat nanos_per_second))
  seconds (negsuc n) =
      d.add (d.of_int (minus (suc n / nanos_per_second)))
        (d.div (d.of_int (minus (suc n % nanos_per_second))) (nat nanos_per_second))

abbrev pub whole_limit : ℕ
whole_limit = 2 ^ 53

pub record IsIeee {ℓ} (W : Type ℓ) ⦃d : Double W⦄ : Type ℓ where
  -- The order is total away from NaN.
  pub lt-eq-not-le : (x y : W) → x ≼ x → y ≼ y → d.lt x y ≡ not (d.le y x)
  pub total : (a b : W) → a ≼ a → b ≼ b → (a ≼ b) ⊎ (b ≼ a)
  pub numbers_of_lt : (a b : W) → d.lt a b ≡ true → (a ≼ a) × (b ≼ b)
  pub numbers_of_le : (a b : W) → a ≼ b → (a ≼ a) × (b ≼ b)
  pub trans : (a b c : W) → a ≼ b → b ≼ c → a ≼ c
  -- Rounding respects the sign and the order.
  pub add_nonneg : (x y : W) → nat 0 ≼ x → nat 0 ≼ y → nat 0 ≼ d.add x y
  pub mul_pos :
      (x y : W) → nat 0 ≼ x → d.lt (nat 0) y ≡ true → d.is_inf y ≡ false → nat 0 ≼ d.mul x y
  pub div_nonneg :
      (x y : W)
      → nat 0 ≼ x
      → d.is_inf x ≡ false
      → d.lt (nat 0) y ≡ true
      → d.is_inf y ≡ false
      → nat 0 ≼ d.div x y
  pub finite_below : (x y : W) → nat 0 ≼ x → x ≼ y → d.is_inf y ≡ false → d.is_inf x ≡ false
  pub sub_nonneg : (x y : W) → y ≼ x → d.is_inf y ≡ false → nat 0 ≼ d.sub x y
  pub sub_le : (x y z : W) → nat 0 ≼ y → d.is_inf x ≡ false → x ≼ z → d.sub x y ≼ z
  pub add_one_finite : (x : W) → d.is_inf x ≡ false → d.is_inf (d.add x (nat 1)) ≡ false
  pub seconds_nonneg :
      (n : ℕ)
      → pos n ≤ℤ max_duration
      → (◌≼◌ {W = W} (nat 0) (seconds (pos n))) × (d.is_inf (seconds (pos n)) ≡ false)
  -- Whole numbers.
  pub whole_finite : (a : ℕ) → a ≤ whole_limit → d.is_inf (nat a) ≡ false
  pub le_whole : (a b : ℕ) → a ≤ whole_limit → b ≤ whole_limit → d.le (nat a) (nat b) ≡ leb a b
  pub lt_whole : (a b : ℕ) → a ≤ whole_limit → b ≤ whole_limit → d.lt (nat a) (nat b) ≡ ltb a b
  pub add_whole : (a b : ℕ) → a + b ≤ whole_limit → d.add (nat a) (nat b) ≡ nat (a + b)
  pub sub_whole : (a b : ℕ) → b ≤ a → a ≤ whole_limit → d.sub (nat a) (nat b) ≡ nat (a - b)
  pub sub_below : (a b : ℕ) → a < b → b ≤ whole_limit → d.lt (d.sub (nat a) (nat b)) (nat 0) ≡ true
  pub mul_whole :
      (a b : ℕ)
      → a ≤ whole_limit
      → b ≤ whole_limit
      → a * b ≤ whole_limit
      → d.mul (nat a) (nat b) ≡ nat (a * b)
  pub div_whole : (b : ℕ) → 0 < b → b ≤ whole_limit → d.div (nat 0) (nat b) ≡ nat 0
  pub max_number : ◌≼◌ {W = W} (d.of_int max_duration) (d.of_int max_duration)
  -- A conversion is exact on whole numbers, and in range from 0 to below 2 ^ 63.
  pub to_int_whole : (a : ℕ) → a ≤ whole_limit → d.to_int (nat a) ≡ pos a
  pub to_int_fits :
      (x : W)
      → nat 0 ≼ x
      → d.lt x (d.of_int max_duration) ≡ true
      → (pos 0 ≤ℤ d.to_int x) × (d.to_int x ≤ℤ max_duration)
  pub round_fits :
      (x : W)
      → nat 0 ≼ x
      → d.lt x (d.of_int max_duration) ≡ true
      → (nat 0 ≼ d.round x) × (d.lt (d.round x) (d.of_int max_duration) ≡ true)
  pub ceil_fits :
      (x : W)
      → nat 0 ≼ x
      → d.lt x (d.of_int max_duration) ≡ true
      → (nat 0 ≼ d.ceil x) × (d.lt (d.ceil x) (d.of_int max_duration) ≡ true)
