-- ===== src/Memory/Hash/Range.antt =====
-- memory/sharded_store.go: masking a hash with `len(shards)-1` picks a shard that exists, the
-- remainder of the hash, if the number of shards is a power of two.
use Prim.Native.Nat.{bit_and, bit_and-bitwise, digits, min}
use native.Mathlib.Nat.{pow-suc, one-le-pow}
use mathlib.Core.Path.{subst}
use kaka.Prelude.{
  ℕ, zero, suc, ◌+◌, ◌-◌, ◌*◌, ◌/◌, ◌%◌, ◌^◌, ◌≤◌, ◌<◌, ◌≡◌, refl, sym, ◌∙◌, ap, arith,
}
use kaka.Core.{Key}
use kaka.Memory.Hash.{fnv1a64, shard_for}

-- `bit_and` with `n` as the bound on the digits it looks at.
abbrev conjoin : ℕ → ℕ → ℕ → ℕ
conjoin n a m = digits (λ b. zero) min n a m

mod-two_mul : (a d : ℕ) → 1 ≤ d → a % (2 * d) ≡ a / 2 % d * 2 + a % 2
mod-two_mul a d h = grind arith

-- `2 ^ k - 1` keeps the last `k` digits.
conjoin-mask : (n k a : ℕ) → a ≤ n → conjoin n a (2 ^ k - 1) ≡ a % 2 ^ k
conjoin-mask zero k a h = omega arith
conjoin-mask (suc n) zero zero h = refl
conjoin-mask (suc n) (suc k) zero h = omega arith
conjoin-mask (suc n) zero (suc a) h = omega (arith, conjoin-mask n zero (suc a / 2) (omega arith))
conjoin-mask (suc n) (suc k) (suc a) h =
    let double : 2 ^ suc k ≡ 2 * 2 ^ k = omega (arith, pow-suc 2 k) in
    let shifted : (2 ^ suc k - 1) / 2 ≡ 2 ^ k - 1 = omega (arith, double, one-le-pow k 2) in
    let rest = conjoin-mask n k (suc a / 2) (omega arith) in
    rw (shifted, rest)
      (omega (
        arith,
        double,
        one-le-pow k 2,
        mod-two_mul (suc a) (2 ^ k) (omega (arith, one-le-pow k 2)),
        ap (λ (d : ℕ). suc a % d) double,
      ))

bit_and-mask : (k a : ℕ) → bit_and a (2 ^ k - 1) ≡ a % 2 ^ k
bit_and-mask k a = bit_and-bitwise a (2 ^ k - 1) ∙ conjoin-mask a k a (omega arith)

-- With `2 ^ k` shards a key goes to the shard that its hash modulo their number names, which is in
-- range.
pub shard_for-mod :
    (n k : ℕ) (key : Key) → n ≡ 2 ^ k → (shard_for n key ≡ fnv1a64 key % n) × (shard_for n key < n)
unfolding shard_for
shard_for-mod n k key e =
    let mask : bit_and (fnv1a64 key) (n - 1) ≡ fnv1a64 key % n =
      subst (λ m. bit_and (fnv1a64 key) (m - 1) ≡ fnv1a64 key % m) (sym e)
        (bit_and-mask k (fnv1a64 key)) in
    (mask, omega (arith, mask, e, one-le-pow k 2))
