-- ===== src/Common/Decimal.antt =====
-- The template literals of a whole number, such as `order-${n}`, and that they can be read back.
use Prim.Native.Char.{Char, code}
use Prim.Native.Nat.{ℕ, zero, suc, ◌+◌, ◌*◌, ◌-◌, ◌/◌, ◌%◌, ◌<◌, ◌≤◌}
use Prim.Native.String
use Prim.Native.String.{String, [], ◌∷◌}
use mathlib.Core.Path.{◌≡◌, refl, sym, ap, ◌∙◌}
use native.Mathlib.Omega.{arith}
use text.Mathlib.TextLemmas.{append_cancel_left}
use trading_intelligence.Common.Tests.{eqb, if◌then◌else◌, Bool-cases}
use mathlib.Core.Logic.{inl, inr}

digit : ℕ → Char
digit zero = "0"
digit (suc zero) = "1"
digit (suc (suc zero)) = "2"
digit (suc (suc (suc zero))) = "3"
digit (suc (suc (suc (suc zero)))) = "4"
digit (suc (suc (suc (suc (suc zero))))) = "5"
digit (suc (suc (suc (suc (suc (suc zero)))))) = "6"
digit (suc (suc (suc (suc (suc (suc (suc zero))))))) = "7"
digit (suc (suc (suc (suc (suc (suc (suc (suc zero)))))))) = "8"
digit _ = "9"

-- The digits of `n` in front of `out`; `n` rounds are more than enough.
emit : ℕ → ℕ → String → String
unfolding digit
emit zero n out = out
emit (suc fuel) n out =
    let rest = emit fuel (n / 10) (digit (n % 10) ∷ out) in if eqb n 0 then out else rest

unfoldable pub decimal : ℕ → String
unfolding emit
decimal n = if eqb n 0 then "0" else emit n n []

unfoldable pub numbered : String → ℕ → String
unfolding decimal
numbered prefix n = String.◌++◌ prefix (decimal n)

read : ℕ → String → ℕ
read acc [] = acc
read acc (c ∷ s) = read (acc * 10 + (code c - 48)) s

digit_value : (d : ℕ) → d < 10 → code (digit d) - 48 ≡ d
unfolding digit
digit_value zero h = refl
digit_value (suc zero) h = refl
digit_value (suc (suc zero)) h = refl
digit_value (suc (suc (suc zero))) h = refl
digit_value (suc (suc (suc (suc zero)))) h = refl
digit_value (suc (suc (suc (suc (suc zero))))) h = refl
digit_value (suc (suc (suc (suc (suc (suc zero)))))) h = refl
digit_value (suc (suc (suc (suc (suc (suc (suc zero))))))) h = refl
digit_value (suc (suc (suc (suc (suc (suc (suc (suc zero)))))))) h = refl
digit_value (suc (suc (suc (suc (suc (suc (suc (suc (suc zero))))))))) h = refl
digit_value (suc (suc (suc (suc (suc (suc (suc (suc (suc (suc n)))))))))) h = absurd (omega arith)

read-emit : (fuel n : ℕ) (out : String) → n ≤ fuel → read 0 (emit fuel n out) ≡ read n out
unfolding emit read
read-emit zero n out h = ap (λ k. read k out) (omega arith)
read-emit (suc fuel) n out h = elim (Bool-cases (eqb n 0)) [
  | inl none_left ↦ rw none_left (ap (λ k. read k out) (ground arith))
  | inr more ↦ rw more (
      read-emit fuel (n / 10) (digit (n % 10) ∷ out) (ground arith)
      ∙ ap (λ k. read k out) (omega (arith, digit_value (n % 10) (omega arith))))
]

read-decimal : (n : ℕ) → read 0 (decimal n) ≡ n
unfolding decimal read
read-decimal n = elim (Bool-cases (eqb n 0)) [
  | inl is_zero ↦ rw is_zero (ground arith)
  | inr other ↦ rw other (read-emit n n [] (omega arith))
]

-- Different numbers give different texts.
pub numbered-injective : (prefix : String) (m n : ℕ) → numbered prefix m ≡ numbered prefix n → m ≡ n
unfolding numbered
numbered-injective prefix m n h =
    sym (read-decimal m) ∙ ap (read 0) (append_cancel_left prefix _ _ h) ∙ read-decimal n

order_12 : numbered "order-" 12 ≡ "order-12"
unfolding numbered
order_12 = refl
