-- ===== src/Common/Dict.antt =====
-- A JavaScript `Map` with text keys, in insertion order: `set` keeps the place of a key it knows.
use Prim.Native.String.{String}
use mathlib.Core.Path.{◌≡◌, refl, subst}
use mathlib.Core.Bool.{Bool, true, false}
use mathlib.Core.Option.{Option, none, some}
use mathlib.Core.List.{List, [], ◌∷◌, map}
use mathlib.Core.Logic.{◌⊎◌, inl, inr}
use native.Mathlib.Omega.{arith}
use text.Mathlib.Text.{◌==◌}
use text.Mathlib.TextEquality.{eq_iff}
use text.Mathlib.TextPositions.{eq_refl}
use trading_intelligence.Common.Tests.{if◌then◌else◌, is_set, Bool-cases}
use trading_intelligence.Common.Lists.{All, filter}

abbrev pub Dict {ℓ} : Type ℓ → Type ℓ
Dict V = List (String × V)

module _ {ℓ} {V : Type ℓ} where
  unfoldable pub get : String → Dict V → Option V
  get k [] = none
  get k ((j, v) ∷ m) = if j == k then some v else get k m

  unfoldable pub has : String → Dict V → Bool
  unfolding get
  has k m = is_set (get k m)

  unfoldable pub set : String → V → Dict V → Dict V
  set k v [] = (k, v) ∷ []
  set k v ((j, w) ∷ m) = if j == k then (j, v) ∷ m else (j, w) ∷ set k v m

  -- Of a `Map`, whose keys are distinct, this takes one entry away.
  unfoldable pub delete : String → Dict V → Dict V
  delete k [] = []
  delete k ((j, w) ∷ m) = let rest = delete k m in if j == k then rest else (j, w) ∷ rest

  unfoldable pub values : Dict V → List V
  values m = map (λ e. e.1) m

  pub get-set :
      (k j : String) (v : V) (m : Dict V) → get j (set k v m) ≡ (if k == j then some v else get j m)
  unfolding get set
  get-set k j v [] = refl
  get-set k j v ((i, w) ∷ m) = ground (arith, eq_iff k j, eq_iff i k, eq_iff i j, get-set k j v m)

  pub get-delete :
      (k j : String) (m : Dict V) → get j (delete k m) ≡ (if k == j then none else get j m)
  unfolding get delete
  get-delete k j [] = ground arith
  get-delete k j ((i, w) ∷ m) = ground (arith, eq_iff k j, eq_iff i k, eq_iff i j, get-delete k j m)

  -- What holds of all values holds of the value at a key.
  pub All-get {κ} :
      (P : V → Type κ) (k : String) (m : Dict V) (v : V) → All P (values m) → get k m ≡ some v → P v
  unfolding get values
  All-get P k [] v h e = absurd (ground arith)
  All-get P k ((j, w) ∷ m) v (p, h) e = elim (Bool-cases (j == k)) [
    | inl hit ↦ let same : w ≡ v = ground arith in subst P same p
    | inr miss ↦ All-get P k m v h (rw miss at e)
  ]

  pub All-set {κ} :
      (P : V → Type κ) (k : String) (v : V) (m : Dict V)
      → P v
      → All P (values m)
      → All P (values (set k v m))
  unfolding values set
  All-set P k v [] p h = (p, tt)
  All-set P k v ((j, w) ∷ m) p (q, h) = elim (Bool-cases (j == k)) [
    | inl hit ↦ rw hit (p, h)
    | inr miss ↦ rw miss (q, All-set P k v m p h)
  ]

  -- No key stands in it twice.
  abbrev pub IsDict : Dict V → Type ℓ
  IsDict [] = Unit
  IsDict ((k, v) ∷ m) = (get k m ≡ none) × IsDict m

  pub IsDict-set : (k : String) (v : V) (m : Dict V) → IsDict m → IsDict (set k v m)
  unfolding get set
  IsDict-set k v [] h = (refl, tt)
  IsDict-set k v ((j, w) ∷ m) (fresh, h) = elim (Bool-cases (j == k)) [
    | inl hit ↦ rw hit (fresh, h)
    | inr miss ↦
        rw miss (ground (arith, get-set k j v m, eq_iff j k, eq_iff k j), IsDict-set k v m h)
  ]

  get_later :
      (j k : String) (v w : V) (m : Dict V)
      → get j m ≡ none
      → get k m ≡ some v
      → get k ((j, w) ∷ m) ≡ some v
  unfolding get
  get_later j k v w m fresh e = elim (Bool-cases (j == k)) [
    | inl hit ↦ absurd (ground (arith, eq_iff j k))
    | inr miss ↦ rw miss e
  ]

  -- What holds of the value at each key holds of all values.
  pub All-values {κ} :
      (P : V → Type κ) (m : Dict V)
      → IsDict m
      → ((k : String) (v : V) → get k m ≡ some v → P v)
      → All P (values m)
  unfolding get values
  All-values P [] d h = tt
  All-values P ((j, w) ∷ m) (fresh, d) h =
      (h j w (rw (eq_refl j) refl), All-values P m d (λ k v e. h k v (get_later j k v w m fresh e)))

  -- Where no two entries pass a test, at most one value does.
  pub filter_single :
      (p : V → Bool) (m : Dict V)
      → IsDict m
      → ((j k : String) (v w : V)
          → get j m ≡ some v
          → get k m ≡ some w
          → p v ≡ true
          → p w ≡ true
          → j ≡ k)
      → (filter p (values m) ≡ [])
        ⊎ ((k : String) × (v : V) × (get k m ≡ some v)
            × (p v ≡ true)
            × (filter p (values m) ≡ v ∷ []))
  unfolding get values
  filter_single p [] d apart = inl refl
  filter_single p ((i, u) ∷ m) (fresh, d) apart =
      go
        (filter_single p m d (λ j k v w a b s t.
          apart j k v w (get_later i j v u m fresh a) (get_later i k w u m fresh b) s t))
        (Bool-cases (p u))
    where
      Rest : Type ℓ
      Rest =
          (filter p (values m) ≡ [])
          ⊎ ((k : String) × (v : V) × (get k m ≡ some v)
              × (p v ≡ true)
              × (filter p (values m) ≡ v ∷ []))

      Goal : Type ℓ
      Goal =
          (filter p (values ((i, u) ∷ m)) ≡ [])
          ⊎ ((k : String) × (v : V) × (get k ((i, u) ∷ m) ≡ some v)
              × (p v ≡ true)
              × (filter p (values ((i, u) ∷ m)) ≡ v ∷ []))

      go : Rest → (p u ≡ true) ⊎ (p u ≡ false) → Goal
      go (inl none_later) (inl hit) =
          inr (i, u, rw (eq_refl i) refl, hit, rw (hit, none_later) refl)
      go (inl none_later) (inr miss) = inl (rw (miss, none_later) refl)
      go (inr (k, v, at, hit', one)) (inl hit) =
          let same : i ≡ k =
            apart i k u v (rw (eq_refl i) refl) (get_later i k v u m fresh at) hit hit' in
          absurd (ground (arith, same))
      go (inr (k, v, at, hit', one)) (inr miss) =
          inr (k, v, get_later i k v u m fresh at, hit', rw miss one)
