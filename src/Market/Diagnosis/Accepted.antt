-- ===== src/Market/Diagnosis/Accepted.antt =====
-- market-data/candle-validation.ts: what the report says of a history that the validation lets through.
use trading_intelligence.Common.{
  ℕ, ◌≡◌, refl, sym, ap, ◌∙◌, subst, String, Bool, true, false, List, [], ◌∷◌, map, Option, some,
  ok, All, Bool-cases, inl, inr, get_or_else,
}
use trading_intelligence.Common.Int.{ℤ, pos, ◌-ℤ◌, leb_ℤ}
use trading_intelligence.Common.Numbers.{Numbers}
use trading_intelligence.Market.Candles.{
  HistoricalCandle, timeframe_duration_ms, CandleGapDiagnostic, ValidateHistoricalCandlesOptions,
}
use trading_intelligence.Market.Hours.{MarketHoursPolicy, resolve_market_session}
use trading_intelligence.Market.Gaps.Closed.{IsExplained}
use trading_intelligence.Market.Validation.{
  insert, sort, gap_between, exceeds_tolerance, is_always_open, validate_historical_candles,
}
use trading_intelligence.Market.Validation.Wellformed.{IsDistinct, IsNew, seen_later}
use trading_intelligence.Market.Validation.Accounted.{IsAccounted}
use trading_intelligence.Market.Validation.Trust.{
  Linked, All-new, validate_historical_candles-IsTrusted,
}
use trading_intelligence.Market.Diagnosis.{duplicates, wide_gap, wide_gaps, diagnose_candle_gaps}

-- Sorting the texts is sorting what they are texts of.
module _ {A : Type 0} (locale_compare : String → String → ℤ) (key : A → String) where
  map-insert :
      (a : A) (xs : List A)
      → map key (insert locale_compare key a xs)
        ≡ insert locale_compare (λ t. t) (key a) (map key xs)
  unfolding insert
  map-insert a [] = refl
  map-insert a (b ∷ xs) = elim (Bool-cases (leb_ℤ (locale_compare (key a) (key b)) (pos 0))) [
    | inl before ↦ rw before refl
    | inr after ↦ rw after (ap (λ t. key b ∷ t) (map-insert a xs))
  ]

  map-sort :
      (xs : List A)
      → map key (sort locale_compare key xs) ≡ sort locale_compare (λ t. t) (map key xs)
  unfolding sort
  map-sort [] = refl
  map-sort (a ∷ xs) =
      map-insert a (sort locale_compare key xs)
      ∙ ap (insert locale_compare (λ t. t) (key a)) (map-sort xs)

module _ {Num : Type 0} ⦃num : Numbers Num⦄ (date_parse : String → Option ℤ) where
  duplicates_none :
      (seen : List String) (cs : List (HistoricalCandle Num))
      → All (IsNew date_parse seen) cs
      → IsDistinct cs
      → duplicates seen (map (λ c. c.timestamp) cs) ≡ []
  duplicates_none seen [] new distinct = refl
  duplicates_none seen (c ∷ cs) (new, later) (differ, distinct) = rw new (
      duplicates_none (c.timestamp ∷ seen) cs
        (seen_later date_parse c.timestamp seen cs differ later) distinct)

-- A gap that is explained by the hours of the market.
abbrev pub IsClosure : (String → Option ℤ) → Bool → MarketHoursPolicy → CandleGapDiagnostic → Type 0
IsClosure date_parse is_crypto policy gap =
    (is_crypto ≡ false)
    × (prev : ℤ) × (curr : ℤ) × (date_parse gap.prev_timestamp ≡ some prev)
    × (date_parse gap.curr_timestamp ≡ some curr)
    × IsExplained policy gap.expected_interval_ms prev curr

module _ (date_parse : String → Option ℤ) (is_crypto : Bool) (policy : MarketHoursPolicy)
    (expected : ℕ) where
  wide_gap-IsClosure :
      (s t : String) (later : List CandleGapDiagnostic)
      → IsAccounted date_parse is_crypto policy expected s t
      → All (IsClosure date_parse is_crypto policy) later
      → All
          (IsClosure date_parse is_crypto policy)
          (wide_gap date_parse expected s t (gap_between (date_parse s) (date_parse t)) later)
  wide_gap-IsClosure s t later (prev, curr, ea, eb, inl within) h = rw (ea, eb, within) h
  wide_gap-IsClosure s t later (prev, curr, ea, eb, inr (traded, shut)) h =
      subst
        (λ o.
          All (IsClosure date_parse is_crypto policy) (wide_gap date_parse expected s t o later))
        (sym parsed)
        (elim (Bool-cases (exceeds_tolerance expected (curr -ℤ prev))) [
          | inr within ↦ rw within h
          | inl wide ↦ rw wide ((traded, prev, curr, ea, eb, shut), h)
        ])
    where
      parsed : gap_between (date_parse s) (date_parse t) ≡ some (curr -ℤ prev)
      parsed = rw (ea, eb) refl

  wide_gaps-IsClosure :
      {Num : Type 0} (cs : List (HistoricalCandle Num))
      → Linked (λ c d. IsAccounted date_parse is_crypto policy expected c.timestamp d.timestamp) cs
      → All
          (IsClosure date_parse is_crypto policy)
          (wide_gaps date_parse expected (map (λ c. c.timestamp) cs))
  wide_gaps-IsClosure [] h = tt
  wide_gaps-IsClosure (c ∷ []) h = tt
  wide_gaps-IsClosure (c ∷ d ∷ cs) (first, rest) =
      wide_gap-IsClosure c.timestamp d.timestamp
        (wide_gaps date_parse expected (map (λ e. e.timestamp) (d ∷ cs))) first
        (wide_gaps-IsClosure (d ∷ cs) rest)

module _ {Num : Type 0} ⦃num : Numbers Num⦄ (date_parse : String → Option ℤ)
    (locale_compare : String → String → ℤ) (to_upper_case : String → String)
    (default_policy : MarketHoursPolicy) where
  -- The report on a history that passes lists no duplicate timestamp, and no gap but those of an
  -- instrument that is not crypto which the hours of the market explain.
  pub diagnose_candle_gaps-IsClosure :
      (candles : List (HistoricalCandle Num)) (instrument : String)
      (options : ValidateHistoricalCandlesOptions)
      → validate_historical_candles date_parse locale_compare to_upper_case default_policy candles
          instrument options
        ≡ ok true
      → ((diagnose_candle_gaps date_parse locale_compare candles instrument
            options.timeframe).duplicate_timestamps
          ≡ [])
        × All
            (IsClosure date_parse
              (is_always_open (resolve_market_session to_upper_case instrument options.now))
              (get_or_else options.equity_market_hours_policy default_policy))
            (diagnose_candle_gaps date_parse locale_compare candles instrument
              options.timeframe).gaps
  unfolding diagnose_candle_gaps
  diagnose_candle_gaps-IsClosure candles instrument options h =
      let (many, distinct, formed, accounted, recent) =
        (validate_historical_candles-IsTrusted date_parse locale_compare to_upper_case
            default_policy candles instrument options).0
          h in
      (
        duplicates_none date_parse [] candles (All-new candles) distinct,
        subst
            (λ ts.
              All
                (IsClosure date_parse
                  (is_always_open (resolve_market_session to_upper_case instrument options.now))
                  (get_or_else options.equity_market_hours_policy default_policy))
                (wide_gaps date_parse (timeframe_duration_ms options.timeframe) ts))
            (map-sort locale_compare (λ c. c.timestamp) candles)
            (wide_gaps-IsClosure date_parse
              (is_always_open (resolve_market_session to_upper_case instrument options.now))
              (get_or_else options.equity_market_hours_policy default_policy)
              (timeframe_duration_ms options.timeframe)
              (sort locale_compare (λ c. c.timestamp) candles) accounted),
      )
