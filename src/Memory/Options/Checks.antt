-- ===== src/Memory/Options/Checks.antt =====
-- memory/options.go: which configurations the constructors accept.
use Prim.Native.Nat.{bit_and}
use kaka.Prelude.{
  ℕ, zero, suc, ◌-◌, ◌^◌, ◌≤◌, ◌≡◌, refl, ◌⊎◌, inl, inr, ℤ, pos, pos_part, ◌≤ℤ◌, Bool, true, false,
  not, ◌&&◌, ◌||◌, leb, ==_iff, Bool-cases, ap, ◌∙◌, sym, ◌↔◌, if◌then◌else◌, Option, none, some,
  ◌==◌, arith,
}
use mathlib.Core.Option.{some-injective}
use mathlib.Core.Path.{subst}
use kaka.Memory.Options.{Options, bad_shard_count, validate, evict_reject, evict_lru}

-- What holds of options that pass the check.
pub record Accepted (o : Options) : Type 0 where
  pub keys : pos 0 ≤ℤ o.max_keys
  pub ttl : pos 0 ≤ℤ o.key_ttl
  pub interval : pos 0 ≤ℤ o.cleanup_interval
  pub clock : o.clock ≡ true
  pub eviction : (o.eviction ≡ evict_reject) ⊎ (o.eviction ≡ evict_lru)
  pub few : pos_part o.shards ≤ 1024
  pub some_shard : 1 ≤ pos_part o.shards
  pub positive : o.shards ≡ pos (pos_part o.shards)
  pub power : (k : ℕ) × (k ≤ 10) × (pos_part o.shards ≡ 2 ^ k)

module _ (test : ℕ → Bool) where
  -- The test passes at the numbers up to `top`.
  passes_up_to : ℕ → Bool
  passes_up_to zero = test 0
  passes_up_to (suc top) = if test (suc top) then passes_up_to top else false

  passes_at : (top n : ℕ) → n ≤ top → passes_up_to top ≡ true → test n ≡ true
  unfolding passes_up_to
  passes_at zero zero le all = all
  passes_at zero (suc n) le all = absurd (omega arith)
  passes_at (suc top) n le all = elim (Bool-cases (n == suc top)) [
    | inl last ↦ ground (arith, ap test ((==_iff n (suc top)).0 last))
    | inr below ↦ passes_at top n (ground arith) (ground arith)
  ]

-- The exponent of `n`, if `n` is a power of two up to `2 ^ k`.
exponent : ℕ → ℕ → Option ℕ
exponent zero n = if n == 1 then some 0 else none
exponent (suc k) n = let rest = exponent k n in if n == 2 ^ suc k then some (suc k) else rest

exponent_sound : (k n : ℕ) {j : ℕ} → exponent k n ≡ some j → (j ≤ k) × (n ≡ 2 ^ j)
unfolding exponent
exponent_sound zero n {j} h = ground arith
exponent_sound (suc k) n {j} h = elim (Bool-cases (n == 2 ^ suc k)) [
  | inl p ↦
      let e : suc k ≡ j = some-injective _ _ (rw p at h) in
      (omega (arith, e), (==_iff n (2 ^ suc k)).0 p ∙ ap (λ i. 2 ^ i) e)
  | inr p ↦ let (b, c) = exponent_sound k n (rw p at h) in (omega arith, c)
]

found : Option ℕ → Bool
found none = false
found (some k) = true

-- Among 1 to 1024, `n & (n - 1)` is zero at the powers of two.
single_bit_table :
    passes_up_to (λ n. (n == 0) || (not (bit_and n (n - 1) == 0) || found (exponent 10 n))) 1024
    ≡ true
unfolding passes_up_to exponent found
single_bit_table = refl

power_table : passes_up_to (λ k. bit_and (2 ^ k) (2 ^ k - 1) == 0 && leb (2 ^ k) 1024) 10 ≡ true
unfolding passes_up_to
power_table = refl

found→some : (o : Option ℕ) → found o ≡ true → (k : ℕ) × (o ≡ some k)
unfolding found
found→some none h = cc
found→some (some k) h = (k, refl)

single_bit-power :
    (n : ℕ) → 1 ≤ n → n ≤ 1024 → bit_and n (n - 1) ≡ 0 → (k : ℕ) × (k ≤ 10) × (n ≡ 2 ^ k)
single_bit-power n lo hi h =
    let row = passes_at _ 1024 n hi single_bit_table in
    let (k, e) = found→some (exponent 10 n) (ground arith) in
    let (b, c) = exponent_sound 10 n e in (k, b, c)

power-single_bit : (k : ℕ) → k ≤ 10 → (bit_and (2 ^ k) (2 ^ k - 1) ≡ 0) × (2 ^ k ≤ 1024)
power-single_bit k h = let row = passes_at _ 10 k h power_table in ground arith

shards_sound :
    (n : ℤ)
    → bad_shard_count n ≡ false
    → (1 ≤ pos_part n)
      × (pos_part n ≤ 1024)
      × (n ≡ pos (pos_part n))
      × (bit_and (pos_part n) (pos_part n - 1) ≡ 0)
unfolding bad_shard_count
shards_sound n h = ground arith

validate_fields :
    (o : Options)
    → validate o ≡ none
    → (pos 0 ≤ℤ o.max_keys)
      × (pos 0 ≤ℤ o.key_ttl)
      × (pos 0 ≤ℤ o.cleanup_interval)
      × (o.clock ≡ true)
      × (bad_shard_count o.shards ≡ false)
unfolding validate
validate_fields o h = ground arith

validate_eviction :
    (o : Options) → validate o ≡ none → (o.eviction ≡ evict_reject) ⊎ (o.eviction ≡ evict_lru)
unfolding validate
validate_eviction o h = ground arith

validate_sound : (o : Options) → validate o ≡ none → Accepted o
validate_sound o h =
    let (keys, ttl, interval, clock, shards) = validate_fields o h in
    let (lo, hi, positive, bit) = shards_sound o.shards shards in
    record {
      keys = keys;
      ttl = ttl;
      interval = interval;
      clock = clock;
      eviction = validate_eviction o h;
      few = hi;
      some_shard = lo;
      positive = positive;
      power = single_bit-power (pos_part o.shards) lo hi bit;
    }

shards_complete :
    (n : ℤ)
    → 1 ≤ pos_part n
    → pos_part n ≤ 1024
    → n ≡ pos (pos_part n)
    → bit_and (pos_part n) (pos_part n - 1) ≡ 0
    → bad_shard_count n ≡ false
unfolding bad_shard_count
shards_complete n lo hi positive bit = ground arith

validate_complete : (o : Options) → Accepted o → validate o ≡ none
unfolding validate
validate_complete o a =
    let (k, le, e) = a.power in
    let bit : bit_and (pos_part o.shards) (pos_part o.shards - 1) ≡ 0 =
      subst (λ n. bit_and n (n - 1) ≡ 0) (sym e) (power-single_bit k le).0 in
    ground (arith, shards_complete o.shards a.some_shard a.few a.positive bit)

-- A constructor accepts its options exactly if nothing is negative, there is a clock, the policy is
-- one of the two, and the number of shards is a power of two from 1 to 1024.
pub validate-Accepted : (o : Options) → (validate o ≡ none) ↔ Accepted o
validate-Accepted o = (validate_sound o, validate_complete o)
