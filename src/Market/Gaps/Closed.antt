-- ===== src/Market/Gaps/Closed.antt =====
-- A gap is explained exactly if the market was closed at all of its boundaries.
use native.Mathlib.Nat.{div-add-mod, mod-lt, mul_comm}
use trading_intelligence.Common.{
  ℕ, zero, suc, ◌+◌, ◌-◌, ◌*◌, ◌/◌, ◌<◌, ◌≤◌, ◌≡◌, ◌↔◌, refl, sym, subst, true, false, Option, none,
  some, ltb, arith, Bool-cases, inl, inr,
}
use trading_intelligence.Common.Int.{
  ℤ, pos, negsuc, ◌+ℤ◌, ◌-ℤ◌, ltb_ℤ, pos_part, neg_part, +ℤ_parts, -ℤ_parts, eq_of_parts,
}
use trading_intelligence.Market.Hours.{MarketHoursPolicy}
use trading_intelligence.Market.Gaps.{
  GapClosureCheckResult, explained, unexplained, in_session_gap, malformed_timestamp,
  exceeds_maximum_explainable_gap, exceeds_boundary_check_limit, max_explainable_gap_ms,
  max_boundary_checks, boundary_count, check_boundaries, check_gap,
  is_gap_explained_by_market_closure,
}

module _ (policy : MarketHoursPolicy) (expected : ℕ) (curr : ℤ) where
  -- The market is closed at a boundary and all later ones before the next candle.
  abbrev pub IsClosedFrom : ℤ → Type 0
  IsClosedFrom b =
      (k : ℕ)
      → ltb_ℤ (b +ℤ pos (k * expected)) curr ≡ true
      → policy (b +ℤ pos (k * expected)) ≡ false

  step : (b : ℤ) (k : ℕ) → (b +ℤ pos expected) +ℤ pos (k * expected) ≡ b +ℤ pos (suc k * expected)
  step b k = eq_of_parts ((b +ℤ pos expected) +ℤ pos (k * expected)) (b +ℤ pos (suc k * expected)) (
      omega (
        arith,
        +ℤ_parts (b +ℤ pos expected) (pos (k * expected)),
        +ℤ_parts b (pos expected),
        +ℤ_parts b (pos (suc k * expected)),
      ))

  -- Enough fuel.
  abbrev Reaches : ℕ → ℤ → Type 0
  Reaches n b = pos_part curr + neg_part b ≤ neg_part curr + pos_part b + n * expected

  next_reaches : (n : ℕ) (b : ℤ) → Reaches (suc n) b → Reaches n (b +ℤ pos expected)
  next_reaches n b h = omega (arith, +ℤ_parts b (pos expected))

  check_boundaries-ends :
      (n : ℕ) (b : ℤ)
      → Reaches n b
      → (r : GapClosureCheckResult) × (check_boundaries policy expected curr n b ≡ some r)
  unfolding check_boundaries
  check_boundaries-ends zero b h = rw past (explained, refl)
    where
      past : ltb_ℤ b curr ≡ false
      past = ground arith
  check_boundaries-ends (suc n) b h = elim (Bool-cases (ltb_ℤ b curr)) [
    | inr past ↦ rw past (explained, refl)
    | inl before ↦ elim (Bool-cases (policy b)) [
      | inl opened ↦ rw (before, opened) (unexplained in_session_gap, refl)
      | inr closed ↦
          rw (before, closed) (check_boundaries-ends n (b +ℤ pos expected) (next_reaches n b h))
    ]
  ]

  here : (b : ℤ) → b +ℤ pos (0 * expected) ≡ b
  here b = eq_of_parts (b +ℤ pos (0 * expected)) b (omega (arith, +ℤ_parts b (pos (0 * expected))))

  IsClosedFrom-next : (b : ℤ) → IsClosedFrom b → IsClosedFrom (b +ℤ pos expected)
  IsClosedFrom-next b h k before =
      subst (λ t. policy t ≡ false) (sym (step b k))
        (h (suc k) (subst (λ t. ltb_ℤ t curr ≡ true) (step b k) before))

  IsClosedFrom-here : (b : ℤ) → IsClosedFrom b → ltb_ℤ b curr ≡ true → policy b ≡ false
  IsClosedFrom-here b h before =
      subst (λ t. policy t ≡ false) (here b)
        (h 0 (subst (λ t. ltb_ℤ t curr ≡ true) (sym (here b)) before))

  IsClosedFrom-cons : (b : ℤ) → policy b ≡ false → IsClosedFrom (b +ℤ pos expected) → IsClosedFrom b
  IsClosedFrom-cons b closed h zero before = subst (λ t. policy t ≡ false) (sym (here b)) closed
  IsClosedFrom-cons b closed h (suc k) before =
      subst (λ t. policy t ≡ false) (step b k)
        (h k (subst (λ t. ltb_ℤ t curr ≡ true) (sym (step b k)) before))

  IsClosedFrom-past : (b : ℤ) → ltb_ℤ b curr ≡ false → IsClosedFrom b
  IsClosedFrom-past b past k before = absurd (ground (arith, +ℤ_parts b (pos (k * expected))))

  explained→closed :
      (n : ℕ) (b : ℤ) → check_boundaries policy expected curr n b ≡ some explained → IsClosedFrom b
  unfolding check_boundaries
  explained→closed zero b h = elim (Bool-cases (ltb_ℤ b curr)) [
    | inr past ↦ IsClosedFrom-past b past
    | inl before ↦ cc
  ]
  explained→closed (suc n) b h = elim (Bool-cases (ltb_ℤ b curr)) [
    | inr past ↦ IsClosedFrom-past b past
    | inl before ↦ elim (Bool-cases (policy b)) [
      | inl opened ↦ cc
      | inr closed ↦ IsClosedFrom-cons b closed (explained→closed n (b +ℤ pos expected) cc)
    ]
  ]

  closed→explained :
      (n : ℕ) (b : ℤ)
      → Reaches n b
      → IsClosedFrom b
      → check_boundaries policy expected curr n b ≡ some explained
  unfolding check_boundaries
  closed→explained zero b h closed = rw past refl
    where
      past : ltb_ℤ b curr ≡ false
      past = ground arith
  closed→explained (suc n) b h closed = elim (Bool-cases (ltb_ℤ b curr)) [
    | inr past ↦ rw past refl
    | inl before ↦
        rw (before, IsClosedFrom-here b closed before)
          (closed→explained n (b +ℤ pos expected) (next_reaches n b h) (IsClosedFrom-next b closed))
  ]

-- The gap and the number of its boundaries are within the limits, and the market was closed at every
-- boundary before the next candle.
abbrev pub IsExplained : MarketHoursPolicy → ℕ → ℤ → ℤ → Type 0
IsExplained policy expected prev curr =
    (ltb_ℤ (pos max_explainable_gap_ms) (curr -ℤ prev) ≡ false)
    × (ltb max_boundary_checks (boundary_count (curr -ℤ prev) expected) ≡ false)
    × ((k : ℕ)
        → ltb_ℤ (prev +ℤ pos (suc k * expected)) curr ≡ true
        → policy (prev +ℤ pos (suc k * expected)) ≡ false)

module _ (policy : MarketHoursPolicy) (expected : ℕ) (positive : 0 < expected) where
  enough :
      (prev curr : ℤ)
      → Reaches policy expected curr (boundary_count (curr -ℤ prev) expected) (prev +ℤ pos expected)
  enough prev curr = go (curr -ℤ prev) (-ℤ_parts curr prev)
    where
      go :
          (gap : ℤ)
          → pos_part gap + neg_part curr + pos_part prev
            ≡ neg_part gap + pos_part curr + neg_part prev
          → Reaches policy expected curr (boundary_count gap expected) (prev +ℤ pos expected)
      go (negsuc gap) e = omega (arith, +ℤ_parts prev (pos expected))
      go (pos gap) e = omega (
        arith,
        +ℤ_parts prev (pos expected),
        div-add-mod (gap + expected - 1) expected,
        mod-lt (gap + expected - 1) positive,
        mul_comm expected ((gap + expected - 1) / expected),
      )

  -- The check of a gap ends with a result, whatever the two timestamps are.
  pub is_gap_explained_by_market_closure-ends :
      (prev curr : Option ℤ)
      → (r : GapClosureCheckResult) × (is_gap_explained_by_market_closure prev curr expected policy
          ≡ some r)
  unfolding is_gap_explained_by_market_closure check_gap
  is_gap_explained_by_market_closure-ends none curr = (unexplained malformed_timestamp, refl)
  is_gap_explained_by_market_closure-ends (some prev) none = (unexplained malformed_timestamp, refl)
  is_gap_explained_by_market_closure-ends (some prev) (some curr) =
      elim (Bool-cases (ltb_ℤ (pos max_explainable_gap_ms) (curr -ℤ prev))) [
        | inl wide ↦ rw wide (unexplained exceeds_maximum_explainable_gap, refl)
        | inr narrow ↦
            elim (Bool-cases (ltb max_boundary_checks (boundary_count (curr -ℤ prev) expected))) [
              | inl many ↦ rw (narrow, many) (unexplained exceeds_boundary_check_limit, refl)
              | inr few ↦
                  rw (narrow, few)
                    (check_boundaries-ends policy expected curr
                      (boundary_count (curr -ℤ prev) expected) (prev +ℤ pos expected)
                      (enough prev curr))
            ]
      ]

  from_next :
      (prev curr : ℤ)
      → IsClosedFrom policy expected curr (prev +ℤ pos expected)
      → (k : ℕ) → ltb_ℤ (prev +ℤ pos (suc k * expected)) curr ≡ true
      → policy (prev +ℤ pos (suc k * expected)) ≡ false
  from_next prev curr h k before =
      subst (λ t. policy t ≡ false) (step policy expected curr prev k)
        (h k (subst (λ t. ltb_ℤ t curr ≡ true) (sym (step policy expected curr prev k)) before))

  -- The gap between two instants is explained exactly if it is within the limits and the market was
  -- closed at all of its boundaries.
  pub check_gap_lem :
      (prev curr : ℤ)
      → (check_gap policy expected prev curr ≡ some explained)
        ↔ IsExplained policy expected prev curr
  unfolding check_gap
  check_gap_lem prev curr = (sound, complete)
    where
      sound :
          check_gap policy expected prev curr ≡ some explained
          → IsExplained policy expected prev curr
      sound h = elim (Bool-cases (ltb_ℤ (pos max_explainable_gap_ms) (curr -ℤ prev))) [
        | inl wide ↦ cc
        | inr narrow ↦
            elim (Bool-cases (ltb max_boundary_checks (boundary_count (curr -ℤ prev) expected))) [
              | inl many ↦ cc
              | inr few ↦ (
                narrow,
                few,
                from_next prev curr (
                    explained→closed policy expected curr (boundary_count (curr -ℤ prev) expected)
                      (prev +ℤ pos expected) cc),
              )
            ]
      ]

      complete :
          IsExplained policy expected prev curr
          → check_gap policy expected prev curr ≡ some explained
      complete (narrow, few, closed) =
          rw (narrow, few)
            (closed→explained policy expected curr (boundary_count (curr -ℤ prev) expected)
              (prev +ℤ pos expected) (enough prev curr)
              (λ k before.
                subst (λ t. policy t ≡ false) (sym (step policy expected curr prev k))
                  (closed k
                    (subst (λ t. ltb_ℤ t curr ≡ true) (step policy expected curr prev k) before))))
