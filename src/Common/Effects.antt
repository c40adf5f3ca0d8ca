-- ===== src/Common/Effects.antt =====
-- Methods that read and write a world and may throw. What a method wrote before it threw stays.

use mathlib.Core.Bool.{Bool, true, false}
use mathlib.Core.Path.{◌≡◌, refl}
use mathlib.Core.Logic.{◌⊎◌, inl, inr}

pub data Result (E A : Type 0) : Type 0 where
  ok : A → Result E A
  err : E → Result E A

abbrev pub M : Type 0 → Type 0 → Type 0 → Type 0
M W E A = W → Result E A × W

module _ {W E : Type 0} where
  abbrev pub continue : {A B : Type 0} → (A → M W E B) → Result E A × W → Result E B × W
  continue f (ok a, w) = f a w
  continue f (err e, w) = (err e, w)

  infixl 5 ◌>>=◌ ◌>>◌
  abbrev pub ◌>>=◌ : {A B : Type 0} → M W E A → (A → M W E B) → M W E B
  ◌>>=◌ m f w = continue f (m w)

  abbrev pub ◌>>◌ : {B : Type 0} → M W E (Unit {0}) → M W E B → M W E B
  m >> k = m >>= λ _. k

  abbrev pub return : {A : Type 0} → A → M W E A
  return a w = (ok a, w)

  abbrev pub throw : {A : Type 0} → E → M W E A
  throw e w = (err e, w)

  -- `try { m } catch (e) { handler(e) }`
  abbrev pub catch_in : {A : Type 0} → (E → M W E A) → Result E A × W → Result E A × W
  catch_in handler (ok a, w) = (ok a, w)
  catch_in handler (err e, w) = handler e w

  abbrev pub try_catch : {A : Type 0} → M W E A → (E → M W E A) → M W E A
  try_catch m handler w = catch_in handler (m w)

abbrev pub is_ok : {E A : Type 0} → Result E A → Bool
is_ok (ok a) = true
is_ok (err e) = false

pub Result-cases :
    {E A : Type 0} → (x : Result E A) → ((a : A) × (x ≡ ok a)) ⊎ ((e : E) × (x ≡ err e))
Result-cases (ok a) = inl (a, refl)
Result-cases (err e) = inr (e, refl)
