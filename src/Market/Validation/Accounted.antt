-- ===== src/Market/Validation/Accounted.antt =====
-- market-data/candle-validation.ts: which gaps between two candles `validateHistoricalCandles` accepts.
use trading_intelligence.Common.{
  ℕ, ◌<◌, ◌≡◌, ◌≢◌, ◌↔◌, ◌⊎◌, refl, String, Bool, true, false, Option, none, some, arith, inl, inr,
}
use trading_intelligence.Common.Int.{ℤ, ◌-ℤ◌}
use trading_intelligence.Market.Hours.{MarketHoursPolicy}
use trading_intelligence.Market.Gaps.{
  GapClosureCheckResult, explained, unexplained, malformed_timestamp,
  exceeds_maximum_explainable_gap, exceeds_boundary_check_limit, in_session_gap,
  is_gap_explained_by_market_closure,
}
use trading_intelligence.Market.Gaps.Closed.{IsExplained, check_gap_lem}
use trading_intelligence.Market.Validation.{
  gap_between, exceeds_tolerance, is_tolerated, closure_fault, gap_fault, gap_verdict,
}

-- Two texts that stand next to each other are of instants that are within the tolerance, or the market
-- was closed between them.
abbrev pub IsAccounted :
    (String → Option ℤ) → Bool → MarketHoursPolicy → ℕ → String → String → Type 0
IsAccounted date_parse is_crypto policy expected s t =
    (prev : ℤ) × (curr : ℤ) × (date_parse s ≡ some prev)
    × (date_parse t ≡ some curr)
    × ((exceeds_tolerance expected (curr -ℤ prev) ≡ false)
        ⊎ ((is_crypto ≡ false) × IsExplained policy expected prev curr))

closure_fault_sound :
    {Num : Type 0} (s t : String) (r : Option GapClosureCheckResult)
    → closure_fault {Num = Num} s t r ≡ none
    → r ≡ some explained
closure_fault_sound s t none h = cc
closure_fault_sound s t (some explained) h = refl
closure_fault_sound s t (some (unexplained malformed_timestamp)) h = cc
closure_fault_sound s t (some (unexplained exceeds_maximum_explainable_gap)) h = cc
closure_fault_sound s t (some (unexplained exceeds_boundary_check_limit)) h = cc
closure_fault_sound s t (some (unexplained in_session_gap)) h = cc

verdict_sound :
    {Num : Type 0} (tolerated is_crypto : Bool) (s t : String) (r : Option GapClosureCheckResult)
    → gap_verdict {Num = Num} tolerated is_crypto s t r ≡ none
    → (tolerated ≡ true) ⊎ ((is_crypto ≡ false) × (r ≡ some explained))
verdict_sound true is_crypto s t r h = inl refl
verdict_sound false true s t r h = cc
verdict_sound false false s t r h = inr (refl, closure_fault_sound s t r h)

within_tolerance :
    (expected : ℕ) (gap : ℤ)
    → is_tolerated expected (some gap) ≡ true
    → exceeds_tolerance expected gap ≡ false
within_tolerance expected gap h = ground arith

explained_verdict :
    {Num : Type 0} (tolerated : Bool) (s t : String) (r : Option GapClosureCheckResult)
    → r ≡ some explained
    → gap_verdict {Num = Num} tolerated false s t r ≡ none
explained_verdict true s t r e = refl
explained_verdict false s t r e = rw e refl

module _ (policy : MarketHoursPolicy) (expected : ℕ) where
  malformed :
      (b : Option ℤ) → is_gap_explained_by_market_closure none b expected policy ≢ some explained
  unfolding is_gap_explained_by_market_closure
  malformed b h = cc

  malformed_later :
      (prev : ℤ)
      → is_gap_explained_by_market_closure (some prev) none expected policy ≢ some explained
  unfolding is_gap_explained_by_market_closure
  malformed_later prev h = cc

instants :
    (policy : MarketHoursPolicy) (expected : ℕ)
    → 0 < expected
    → (prev curr : ℤ)
    → (is_gap_explained_by_market_closure (some prev) (some curr) expected policy ≡ some explained)
      ↔ IsExplained policy expected prev curr
unfolding is_gap_explained_by_market_closure
instants policy expected positive prev curr = check_gap_lem policy expected positive prev curr

module _ {Num : Type 0} (date_parse : String → Option ℤ) (is_crypto : Bool)
    (policy : MarketHoursPolicy) (expected : ℕ) (positive : 0 < expected) where
  pub gap_fault_sound :
      (s t : String)
      → gap_fault {Num = Num} date_parse is_crypto policy expected s t ≡ none
      → IsAccounted date_parse is_crypto policy expected s t
  gap_fault_sound s t h = go (date_parse s) (date_parse t) refl refl h
    where
      go :
          (a b : Option ℤ)
          → date_parse s ≡ a
          → date_parse t ≡ b
          → gap_verdict {Num = Num}
              (is_tolerated expected (gap_between a b))
              is_crypto
              s
              t
              (is_gap_explained_by_market_closure a b expected policy)
            ≡ none
          → IsAccounted date_parse is_crypto policy expected s t
      go none b ea eb k =
          elim (verdict_sound {Num = Num} false is_crypto s t
            (is_gap_explained_by_market_closure none b expected policy) k) [
              | inl tolerated ↦ cc
              | inr (traded, shut) ↦ absurd (malformed policy expected b shut)
            ]
      go (some prev) none ea eb k =
          elim (verdict_sound {Num = Num} false is_crypto s t
            (is_gap_explained_by_market_closure (some prev) none expected policy) k) [
              | inl tolerated ↦ cc
              | inr (traded, shut) ↦ absurd (malformed_later policy expected prev shut)
            ]
      go (some prev) (some curr) ea eb k = (
        prev,
        curr,
        ea,
        eb,
        elim (verdict_sound {Num = Num} (is_tolerated expected (some (curr -ℤ prev))) is_crypto s t
            (is_gap_explained_by_market_closure (some prev) (some curr) expected policy) k) [
              | inl tolerated ↦ inl (within_tolerance expected (curr -ℤ prev) tolerated)
              | inr (traded, shut) ↦
                  inr (traded, (instants policy expected positive prev curr).0 shut)
            ],
      )

  pub gap_fault_complete :
      (s t : String)
      → IsAccounted date_parse is_crypto policy expected s t
      → gap_fault {Num = Num} date_parse is_crypto policy expected s t ≡ none
  gap_fault_complete s t (prev, curr, ea, eb, inl within) = rw (ea, eb, within) refl
  gap_fault_complete s t (prev, curr, ea, eb, inr (traded, shut)) =
      rw (ea, eb, traded)
        (explained_verdict (is_tolerated expected (some (curr -ℤ prev))) s t
          (is_gap_explained_by_market_closure (some prev) (some curr) expected policy)
          ((instants policy expected positive prev curr).1 shut))
