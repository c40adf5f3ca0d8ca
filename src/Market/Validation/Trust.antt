-- ===== src/Market/Validation/Trust.antt =====
-- market-data/candle-validation.ts: which histories `validateHistoricalCandles` lets through.
use trading_intelligence.Common.{
  ℕ, ◌*◌, ◌<◌, ◌≤◌, ◌≡◌, ◌↔◌, refl, String, Bool, true, false, List, [], ◌∷◌, Option, none, some,
  ok, arith, length, ltb, All, get_or_else,
}
use trading_intelligence.Common.Int.{ℤ, pos, ◌-ℤ◌, ltb_ℤ}
use trading_intelligence.Common.Numbers.{Numbers}
use trading_intelligence.Market.Candles.{
  HistoricalCandle, CandleFault, MarketTimeframe, timeframe_duration_ms, minute_1, minute_5,
  minute_10, minute_15, minute_30, hour_1, hour_4, day_1, week_1, ValidateHistoricalCandlesOptions,
  min_required_candles, too_few,
}
use trading_intelligence.Market.Hours.{MarketHoursPolicy, resolve_market_session}
use trading_intelligence.Market.Validation.{
  first_of, fault_if, sort, gap_fault, gaps_fault, stale_fault, latest_fault, fail_with,
  is_always_open, first_fault, validate_historical_candles, candles_fault,
}
use trading_intelligence.Market.Validation.Wellformed.{
  both_none, IsWellFormed, IsDistinct, candles_fault_sound, candles_fault_complete,
}
use trading_intelligence.Market.Validation.Accounted.{
  IsAccounted, gap_fault_sound, gap_fault_complete,
}

duration_positive : (t : MarketTimeframe) → 0 < timeframe_duration_ms t
duration_positive minute_1 = omega arith
duration_positive minute_5 = omega arith
duration_positive minute_10 = omega arith
duration_positive minute_15 = omega arith
duration_positive minute_30 = omega arith
duration_positive hour_1 = omega arith
duration_positive hour_4 = omega arith
duration_positive day_1 = omega arith
duration_positive week_1 = omega arith

-- The relation holds of each item and the next.
abbrev pub Linked : {A : Type 0} → (A → A → Type 0) → List A → Type 0
Linked R [] = Unit
Linked R (a ∷ []) = Unit
Linked R (a ∷ b ∷ rest) = R a b × Linked R (b ∷ rest)

abbrev pub IsRecentAt : ValidateHistoricalCandlesOptions → Option ℤ → Type 0
IsRecentAt options none = Unit
IsRecentAt options (some at) =
    ltb_ℤ (pos (options.max_candle_age_seconds * 1000)) (pos options.now -ℤ at) ≡ false

-- The last candle is not older than the maximal age.
abbrev pub IsRecent :
    {Num : Type 0}
    → (String → Option ℤ)
    → ValidateHistoricalCandlesOptions
    → List (HistoricalCandle Num)
    → Type 0
IsRecent date_parse options [] = Unit
IsRecent date_parse options (c ∷ []) = IsRecentAt options (date_parse c.timestamp)
IsRecent date_parse options (c ∷ d ∷ cs) = IsRecent date_parse options (d ∷ cs)

module _ {Num : Type 0} (date_parse : String → Option ℤ) where
  stale_fault-none :
      (options : ValidateHistoricalCandlesOptions) (t : String) (at : Option ℤ)
      → (stale_fault {Num = Num} date_parse options t at ≡ none) ↔ IsRecentAt options at
  stale_fault-none options t none = ground arith
  stale_fault-none options t (some at) = ground arith

  passed :
      (instrument : String) (timeframe : MarketTimeframe) (fault : Option (CandleFault Num))
      → fail_with date_parse instrument timeframe fault ≡ ok true
      → fault ≡ none
  passed instrument timeframe none h = refl
  passed instrument timeframe (some fault) h = cc

  latest_fault-none :
      (options : ValidateHistoricalCandlesOptions) (cs : List (HistoricalCandle Num))
      → (latest_fault date_parse options cs ≡ none) ↔ IsRecent date_parse options cs
  latest_fault-none options [] = (λ h. tt, λ h. refl)
  latest_fault-none options (c ∷ []) = stale_fault-none options c.timestamp (date_parse c.timestamp)
  latest_fault-none options (c ∷ d ∷ cs) = latest_fault-none options (d ∷ cs)

  module _ (is_crypto : Bool) (policy : MarketHoursPolicy) (expected : ℕ)
      (positive : 0 < expected) where
    abbrev Accounted : HistoricalCandle Num → HistoricalCandle Num → Type 0
    Accounted c d = IsAccounted date_parse is_crypto policy expected c.timestamp d.timestamp

    gaps_fault_sound :
        (cs : List (HistoricalCandle Num))
        → gaps_fault date_parse is_crypto policy expected cs ≡ none
        → Linked Accounted cs
    unfolding gaps_fault
    gaps_fault_sound [] h = tt
    gaps_fault_sound (c ∷ []) h = tt
    gaps_fault_sound (c ∷ d ∷ cs) h =
        let (first, rest) =
          both_none (gap_fault date_parse is_crypto policy expected c.timestamp d.timestamp)
            (gaps_fault date_parse is_crypto policy expected (d ∷ cs)) h in
        (
          gap_fault_sound date_parse is_crypto policy expected positive c.timestamp d.timestamp
              first,
          gaps_fault_sound (d ∷ cs) rest,
        )

    gaps_fault_complete :
        (cs : List (HistoricalCandle Num))
        → Linked Accounted cs
        → gaps_fault date_parse is_crypto policy expected cs ≡ none
    unfolding gaps_fault
    gaps_fault_complete [] h = refl
    gaps_fault_complete (c ∷ []) h = refl
    gaps_fault_complete (c ∷ d ∷ cs) (first, rest) =
        rw
          (gap_fault_complete {Num = Num} date_parse is_crypto policy expected positive c.timestamp
            d.timestamp first)
          (gaps_fault_complete (d ∷ cs) rest)

pub All-new : {Num : Type 0} (cs : List (HistoricalCandle Num)) → All (λ c. false ≡ false) cs
All-new [] = tt
All-new (c ∷ cs) = (refl, All-new cs)

module _ {Num : Type 0} ⦃num : Numbers Num⦄ (date_parse : String → Option ℤ)
    (locale_compare : String → String → ℤ) (to_upper_case : String → String)
    (default_policy : MarketHoursPolicy) where
  -- What a caller may rely on: enough candles, each well-formed and no two of the same timestamp, every
  -- gap between two in chronological order accounted for, and the last of them recent.
  abbrev pub IsTrusted :
      List (HistoricalCandle Num) → String → ValidateHistoricalCandlesOptions → Type 0
  IsTrusted candles instrument options =
      (min_required_candles ≤ length candles)
      × IsDistinct candles
      × All (IsWellFormed date_parse) candles
      × Linked
          (λ c d.
            IsAccounted date_parse
              (is_always_open (resolve_market_session to_upper_case instrument options.now))
              (get_or_else options.equity_market_hours_policy default_policy)
              (timeframe_duration_ms options.timeframe) c.timestamp d.timestamp)
          (sort locale_compare (λ c. c.timestamp) candles)
      × IsRecent date_parse options (sort locale_compare (λ c. c.timestamp) candles)

  module _ (candles : List (HistoricalCandle Num)) (instrument : String)
      (options : ValidateHistoricalCandlesOptions) where
    abbrev sorted : List (HistoricalCandle Num)
    sorted = sort locale_compare (λ c. c.timestamp) candles

    abbrev is_crypto : Bool
    is_crypto = is_always_open (resolve_market_session to_upper_case instrument options.now)

    abbrev policy : MarketHoursPolicy
    policy = get_or_else options.equity_market_hours_policy default_policy

    abbrev expected : ℕ
    expected = timeframe_duration_ms options.timeframe

    abbrev gaps : Option (CandleFault Num)
    gaps = gaps_fault date_parse is_crypto policy expected sorted

    first_fault_sound :
        first_fault date_parse locale_compare to_upper_case default_policy candles instrument
            options
          ≡ none
        → IsTrusted candles instrument options
    unfolding first_fault
    first_fault_sound h =
        let (many, h1) =
          both_none
            (fault_if (ltb (length candles) min_required_candles) (too_few (length candles)))
            (first_of (candles_fault date_parse [] candles)
              (first_of gaps (latest_fault date_parse options sorted)))
            h in
        let (formed, h2) =
          both_none (candles_fault date_parse [] candles)
            (first_of gaps (latest_fault date_parse options sorted)) h1 in
        let (accounted, recent) = both_none gaps (latest_fault date_parse options sorted) h2 in
        let (new, distinct, all_formed) = candles_fault_sound date_parse [] candles formed in
        (
          ground arith,
          distinct,
          all_formed,
          gaps_fault_sound date_parse is_crypto policy expected
              (duration_positive options.timeframe) sorted accounted,
          (latest_fault-none date_parse options sorted).0 recent,
        )

    first_fault_complete :
        IsTrusted candles instrument options
        → first_fault date_parse locale_compare to_upper_case default_policy candles instrument
            options
          ≡ none
    unfolding first_fault
    first_fault_complete (many, distinct, formed, accounted, recent) =
        rw
          (
            enough,
            candles_fault_complete date_parse [] candles (All-new candles) distinct formed,
            gaps_fault_complete date_parse is_crypto policy expected
                (duration_positive options.timeframe) sorted accounted,
          )
          ((latest_fault-none date_parse options sorted).1 recent)
      where
        enough : ltb (length candles) min_required_candles ≡ false
        enough = ground arith

    -- A history passes exactly if it is one that a caller may rely on.
    pub validate_historical_candles-IsTrusted :
        (validate_historical_candles date_parse locale_compare to_upper_case default_policy candles
            instrument options
          ≡ ok true)
        ↔ IsTrusted candles instrument options
    unfolding validate_historical_candles
    validate_historical_candles-IsTrusted = (
      λ h. first_fault_sound (
          passed date_parse instrument options.timeframe
            (first_fault date_parse locale_compare to_upper_case default_policy candles instrument
              options)
            h),
      λ h. rw (first_fault_complete h) refl,
    )
