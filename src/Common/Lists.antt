-- ===== src/Common/Lists.antt =====
-- Lists measured by native numbers, the array methods of the source, and predicates on all items.
use Prim.Native.Nat.{ℕ, zero, suc, ◌+◌, ◌≤◌}
use mathlib.Core.Path.{◌≡◌, refl}
use mathlib.Core.Bool.{Bool, true, false, ◌&&◌, ◌||◌}
use mathlib.Core.List.{List, [], ◌∷◌, ◌++◌}
use mathlib.Core.Option.{Option, none, some}
use native.Mathlib.Omega.{arith}
use trading_intelligence.Common.Tests.{if◌then◌else◌, Bool-cases}
use mathlib.Core.Logic.{inl, inr}

module _ {ℓ} {A : Type ℓ} where
  abbrev pub length : List A → ℕ
  length [] = 0
  length (x ∷ xs) = suc (length xs)

  -- `xs.filter(p)`
  abbrev pub filter : (A → Bool) → List A → List A
  filter p [] = []
  filter p (x ∷ xs) = if p x then x ∷ filter p xs else filter p xs

  -- `xs.slice(0, n)`
  abbrev pub take : ℕ → List A → List A
  take zero xs = []
  take (suc n) [] = []
  take (suc n) (x ∷ xs) = x ∷ take n xs

  -- `xs.find(p)`
  abbrev pub find : (A → Bool) → List A → Option A
  find p [] = none
  find p (x ∷ xs) = if p x then some x else find p xs

  -- `xs.some(p)`
  abbrev pub any : (A → Bool) → List A → Bool
  any p [] = false
  any p (x ∷ xs) = p x || any p xs

  -- `xs.every(p)`
  abbrev pub all : (A → Bool) → List A → Bool
  all p [] = true
  all p (x ∷ xs) = p x && all p xs

  pub length-append : (xs ys : List A) → length (xs ++ ys) ≡ length xs + length ys
  length-append [] ys = omega arith
  length-append (x ∷ xs) ys = omega (arith, length-append xs ys)

  pub length-filter-le : (p : A → Bool) (xs : List A) → length (filter p xs) ≤ length xs
  length-filter-le p [] = omega arith
  length-filter-le p (x ∷ xs) = ground (arith, length-filter-le p xs)

module _ {ℓ κ} {A : Type ℓ} (P : A → Type κ) where
  abbrev pub All : List A → Type κ
  All [] = Unit
  All (x ∷ xs) = P x × All xs

  pub All-append : (xs ys : List A) → All xs → All ys → All (xs ++ ys)
  All-append [] ys h k = k
  All-append (x ∷ xs) ys (p, h) k = (p, All-append xs ys h k)

-- What holds of all items implies of all items what it implies of one.
pub All-weaken {ℓ κ μ} :
    {A : Type ℓ} (P : A → Type κ) (Q : A → Type μ)
    → ((x : A) → P x → Q x)
    → (xs : List A) → All P xs
    → All Q xs
All-weaken P Q f [] h = tt
All-weaken P Q f (x ∷ xs) (p, h) = (f x p, All-weaken P Q f xs h)

-- What `find` returns passes the test, and where it returns nothing no item does.
module _ {ℓ} {A : Type ℓ} (p : A → Bool) where
  pub find-passes : (xs : List A) (x : A) → find p xs ≡ some x → p x ≡ true
  find-passes [] x h = ground arith
  find-passes (y ∷ xs) x h = ground (arith, find-passes xs x)

  pub find-none : (xs : List A) → find p xs ≡ none → All (λ x. p x ≡ false) xs
  find-none [] h = tt
  find-none (y ∷ xs) h = ground (arith, find-none xs)

  pub find_of_none : (xs : List A) → All (λ x. p x ≡ false) xs → find p xs ≡ none
  find_of_none [] h = refl
  find_of_none (y ∷ xs) (miss, h) = rw miss (find_of_none xs h)

  pub find-filter-none :
      (q : A → Bool) (xs : List A)
      → find p (filter q xs) ≡ none
      → All (λ x. (q x && p x) ≡ false) xs
  find-filter-none q [] h = tt
  find-filter-none q (y ∷ xs) h = ground (arith, find-filter-none q xs)

pub All-filter {ℓ κ} :
    {A : Type ℓ} (P : A → Type κ) (q : A → Bool) (xs : List A)
    → All P xs
    → All (λ x. P x × (q x ≡ true)) (filter q xs)
All-filter P q [] h = tt
All-filter P q (x ∷ xs) (p, h) = elim (Bool-cases (q x)) [
  | inl hit ↦ rw hit ((p, hit), All-filter P q xs h)
  | inr miss ↦ rw miss (All-filter P q xs h)
]
