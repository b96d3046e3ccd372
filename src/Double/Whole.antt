-- ===== src/Double/Whole.antt =====
-- The laws of float64 can be met together: numbers that are whole, with `none` for NaN.
use kaka.Prelude.{
  zero, suc, ◌*◌, ◌/◌, ℤ, pos, negsuc, sub_ℕ, ◌+ℤ◌, ◌-ℤ◌, ltb_ℤ, leb_ℤ, false, Option, none, some,
  arith,
}
use kaka.Double.{Double, IsIeee, seconds}

abbrev pub Whole : Type 0
Whole = Option ℤ

abbrev on_numbers {ℓ} : {B : Type ℓ} → B → (ℤ → ℤ → B) → Whole → Whole → B
on_numbers nan f (some a) (some b) = f a b
on_numbers nan f x y = nan

abbrev times : ℤ → ℤ → ℤ
times (pos a) (pos b) = pos (a * b)
times (pos a) (negsuc b) = sub_ℕ 0 (a * suc b)
times (negsuc a) (pos b) = sub_ℕ 0 (suc a * b)
times (negsuc a) (negsuc b) = pos (suc a * suc b)

-- Towards zero; there is no quotient by zero.
abbrev quotient : ℤ → ℤ → Whole
quotient a (pos zero) = none
quotient (pos a) (pos (suc b)) = some (pos (a / suc b))
quotient (negsuc a) (pos (suc b)) = some (sub_ℕ 0 (suc a / suc b))
quotient (pos a) (negsuc b) = some (sub_ℕ 0 (a / suc b))
quotient (negsuc a) (negsuc b) = some (pos (suc a / suc b))

-- No number is infinite, and no two different ones are closer than `epsilon`.
instance abbrev pub whole_double : Double Whole
whole_double = record {
  of_int = some;
  epsilon = some (pos 1);
  le = on_numbers false leb_ℤ;
  lt = on_numbers false ltb_ℤ;
  is_inf = λ x. false;
  add = on_numbers none (λ a b. some (a +ℤ b));
  sub = on_numbers none (λ a b. some (a -ℤ b));
  mul = on_numbers none (λ a b. some (times a b));
  div = on_numbers none quotient;
  abs = elim [ none ↦ none | some (pos a) ↦ some (pos a) | some (negsuc a) ↦ some (pos (suc a)) ];
  round = λ x. x;
  ceil = λ x. x;
  to_int = elim [ none ↦ pos 0 | some a ↦ a ];
}

pub Whole-IsIeee : IsIeee Whole
unfolding seconds ◌+ℤ◌ ◌-ℤ◌
Whole-IsIeee = ground arith
