-- ===== src/Common/Numbers.antt =====
-- The `number` values that the program only computes with and compares: prices, quantities,
-- confidences. The operations are parameters, since the language here has no doubles.
use trading_intelligence.Common.Tests.{if◌then◌else◌}
use trading_intelligence.Common.Int.{ℤ, pos, ◌+ℤ◌, ◌-ℤ◌, ◌*ℤ◌, ◌/ℤ◌, leb_ℤ, ltb_ℤ, -ℤ_mul}
use Prim.Native.Nat.{ℕ}
use mathlib.Core.Path.{◌≡◌}
use mathlib.Core.Bool.{Bool, true, not, ◌&&◌}
use mathlib.Core.Logic.{◌⊎◌}
use native.Mathlib.Omega.{arith}

pub record Numbers (Num : Type 0) : Type 0 where
  pub lit : ℕ → Num
  pub neg : Num → Num
  pub add : Num → Num → Num
  pub sub : Num → Num → Num
  pub mul : Num → Num → Num
  pub div : Num → Num → Num
  pub le : Num → Num → Bool
  pub lt : Num → Num → Bool
  pub eq : Num → Num → Bool
  pub is_finite : Num → Bool

module _ {Num : Type 0} ⦃num : Numbers Num⦄ where
  -- `Math.max` and `Math.min` of two numbers, neither of them NaN.
  unfoldable pub max : Num → Num → Num
  max x y = if num.le x y then y else x

  unfoldable pub min : Num → Num → Num
  min x y = if num.le x y then x else y

-- Doubles without NaN are totally ordered by `<=`, and `<` is its strict part.
pub record IsOrdered (Num : Type 0) ⦃num : Numbers Num⦄ : Type 0 where
  pub le_total : (x y : Num) → (num.le x y ≡ true) ⊎ (num.le y x ≡ true)
  pub le_trans : (x y z : Num) → num.le x y ≡ true → num.le y z ≡ true → num.le x z ≡ true
  pub lt-eq-not-le : (x y : Num) → num.lt x y ≡ not (num.le y x)

-- The laws can be met: whole units.
instance abbrev pub integers : Numbers ℤ
integers = record {
  lit = pos;
  neg = λ a. pos 0 -ℤ a;
  add = ◌+ℤ◌;
  sub = ◌-ℤ◌;
  mul = ◌*ℤ◌;
  div = ◌/ℤ◌;
  le = leb_ℤ;
  lt = ltb_ℤ;
  eq = λ a b. leb_ℤ a b && leb_ℤ b a;
  is_finite = λ a. true;
}

pub ℤ-IsOrdered : IsOrdered ℤ
ℤ-IsOrdered = record {
  le_total = λ a b. ground arith;
  le_trans = λ a b c h k. ground arith;
  lt-eq-not-le = λ a b. ground arith;
}

-- Arithmetic without rounding. Doubles have it on whole units of moderate size.
pub record IsExact (Num : Type 0) ⦃num : Numbers Num⦄ : Type 0 where
  pub add_comm : (x y : Num) → num.add x y ≡ num.add y x
  pub add_assoc : (x y z : Num) → num.add (num.add x y) z ≡ num.add x (num.add y z)
  pub add-zero : (x : Num) → num.add x (num.lit 0) ≡ x
  pub sub-add : (x y : Num) → num.add (num.sub x y) y ≡ x
  pub mul_comm : (x y : Num) → num.mul x y ≡ num.mul y x
  pub sub-mul : (x y z : Num) → num.mul (num.sub x y) z ≡ num.sub (num.mul x z) (num.mul y z)
  pub mul-one : (x : Num) → num.mul x (num.lit 1) ≡ x

pub ℤ-IsExact : IsExact ℤ
unfolding ◌+ℤ◌ ◌-ℤ◌ ◌*ℤ◌
ℤ-IsExact = record {
  add_comm = λ a b. ground arith;
  add_assoc = λ a b c. ground arith;
  add-zero = λ a. ground arith;
  sub-add = λ a b. ground arith;
  mul_comm = λ a b. ground arith;
  sub-mul = -ℤ_mul;
  mul-one = λ a. ground arith;
}
