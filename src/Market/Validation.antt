-- ===== src/Market/Validation.antt =====
-- market-data/candle-validation.ts: `validateHistoricalCandles`.
pub mod Wellformed
pub mod Accounted
pub mod Trust
use trading_intelligence.Common.{
  ℕ, ◌*◌, String, Bool, true, false, ◌||◌, List, [], ◌∷◌, Option, none, some, Result, ok, err, any,
  length, ◌==◌, if◌then◌else◌, ltb, get_or_else,
}
use trading_intelligence.Common.Int.{ℤ, pos, ◌-ℤ◌, ◌*ℤ◌, leb_ℤ, ltb_ℤ}
use trading_intelligence.Common.Numbers.{Numbers}
use trading_intelligence.Domain.Market.{MarketSession, crypto_always_open}
use trading_intelligence.Market.Hours.{MarketHoursPolicy, resolve_market_session}
use trading_intelligence.Market.Gaps.{
  exceeds_maximum_explainable_gap, exceeds_boundary_check_limit, GapClosureCheckResult, explained,
  unexplained, is_gap_explained_by_market_closure,
}
use trading_intelligence.Market.Candles.{
  MarketTimeframe, timeframe_text, timeframe_duration_ms, min_required_candles, HistoricalCandle,
  ValidateHistoricalCandlesOptions, open_name, high_name, low_name, close_name, CandleFault,
  too_few, duplicate, unparseable_timestamp, non_finite, non_positive, high_below_low,
  outside_range, non_finite_volume, negative_volume, gap_too_large, missing, stale, unfinished,
  FailureCategory, insufficient_candle_count, malformed_candle, duplicate_timestamp,
  missing_candles, stale_data, MarketDataFailureDetail, malformed_data, MarketDataProviderError,
}

abbrev pub first_of : {A : Type 0} → Option A → Option A → Option A
first_of (some a) later = some a
first_of none later = later

-- A check that fails with a fault.
abbrev pub fault_if : {A : Type 0} → Bool → A → Option A
fault_if b fault = if b then some fault else none

-- `locale_compare a b` is `a.localeCompare(b)`, and `key` the timestamp.
module _ {A : Type 0} (locale_compare : String → String → ℤ) (key : A → String) where
  unfoldable pub insert : A → List A → List A
  insert a [] = a ∷ []
  insert a (b ∷ bs) =
      let rest = insert a bs in
      if leb_ℤ (locale_compare (key a) (key b)) (pos 0) then a ∷ b ∷ bs else b ∷ rest

  -- The stable sort of the source.
  unfoldable pub sort : List A → List A
  unfolding insert
  sort [] = []
  sort (a ∷ rest) = insert a (sort rest)

-- `currMs - prevMs`, `none` for NaN.
abbrev pub gap_between : Option ℤ → Option ℤ → Option ℤ
gap_between (some prev) (some curr) = some (curr -ℤ prev)
gap_between _ _ = none

-- `gapMs > expectedIntervalMs * GAP_TOLERANCE_RATIO`, the ratio being 1.5.
abbrev pub exceeds_tolerance : ℕ → ℤ → Bool
exceeds_tolerance expected gap = ltb_ℤ (pos (3 * expected)) (gap *ℤ pos 2)

abbrev pub is_tolerated : ℕ → Option ℤ → Bool
is_tolerated expected none = false
is_tolerated expected (some gap) = if exceeds_tolerance expected gap then false else true

abbrev pub is_unparseable : (String → Option ℤ) → String → Bool
is_unparseable date_parse timestamp = elim (date_parse timestamp) [ none ↦ true | some at ↦ false ]

abbrev pub is_always_open : MarketSession → Bool
is_always_open crypto_always_open = true
is_always_open _ = false

abbrev pub failure_detail : MarketTimeframe → FailureCategory → MarketDataFailureDetail
failure_detail timeframe category = record {
  category = category;
  timeframe = some (timeframe_text timeframe);
  missing_interval_start_ms = none;
  missing_interval_end_ms = none;
}

abbrev pub gap_detail :
    (String → Option ℤ) → MarketTimeframe → String → String → MarketDataFailureDetail
gap_detail date_parse timeframe prev curr = record (failure_detail timeframe missing_candles) {
  missing_interval_start_ms = date_parse prev;
  missing_interval_end_ms = date_parse curr;
}

-- The two ways out of the loop over the gaps, and going on with it.
abbrev pub closure_fault :
    {Num : Type 0} → String → String → Option GapClosureCheckResult → Option (CandleFault Num)
closure_fault prev curr none = some unfinished
closure_fault prev curr (some explained) = none
closure_fault prev curr (some (unexplained exceeds_maximum_explainable_gap)) =
    some (gap_too_large prev curr exceeds_maximum_explainable_gap)
closure_fault prev curr (some (unexplained exceeds_boundary_check_limit)) =
    some (gap_too_large prev curr exceeds_boundary_check_limit)
closure_fault prev curr (some (unexplained _)) = some (missing prev curr)

abbrev pub gap_verdict :
    {Num : Type 0}
    → Bool
    → Bool
    → String
    → String
    → Option GapClosureCheckResult
    → Option (CandleFault Num)
gap_verdict true is_crypto prev curr closure = none
gap_verdict false true prev curr closure = some (missing prev curr)
gap_verdict false false prev curr closure = closure_fault prev curr closure

module _ {Num : Type 0} (date_parse : String → Option ℤ) where
  abbrev pub gap_fault : Bool → MarketHoursPolicy → ℕ → String → String → Option (CandleFault Num)
  gap_fault is_crypto policy expected prev curr =
      gap_verdict (is_tolerated expected (gap_between (date_parse prev) (date_parse curr)))
        is_crypto prev curr
        (is_gap_explained_by_market_closure (date_parse prev) (date_parse curr) expected policy)

  unfoldable pub gaps_fault :
      Bool → MarketHoursPolicy → ℕ → List (HistoricalCandle Num) → Option (CandleFault Num)
  gaps_fault is_crypto policy expected [] = none
  gaps_fault is_crypto policy expected (c ∷ []) = none
  gaps_fault is_crypto policy expected (c ∷ d ∷ cs) =
      first_of (gap_fault is_crypto policy expected c.timestamp d.timestamp)
        (gaps_fault is_crypto policy expected (d ∷ cs))

  abbrev pub stale_fault :
      ValidateHistoricalCandlesOptions → String → Option ℤ → Option (CandleFault Num)
  stale_fault options latest none = none
  stale_fault options latest (some at) =
      let age = pos options.now -ℤ at in
      fault_if (ltb_ℤ (pos (options.max_candle_age_seconds * 1000)) age) (stale latest age)

  -- No candle is there for no history, which has been turned away before.
  abbrev pub latest_fault :
      ValidateHistoricalCandlesOptions → List (HistoricalCandle Num) → Option (CandleFault Num)
  latest_fault options [] = none
  latest_fault options (c ∷ []) = stale_fault options c.timestamp (date_parse c.timestamp)
  latest_fault options (c ∷ d ∷ cs) = latest_fault options (d ∷ cs)

  abbrev pub detail_of : MarketTimeframe → CandleFault Num → MarketDataFailureDetail
  detail_of timeframe (too_few n) = failure_detail timeframe insufficient_candle_count
  detail_of timeframe (duplicate t) = failure_detail timeframe duplicate_timestamp
  detail_of timeframe (gap_too_large prev curr reason) = gap_detail date_parse timeframe prev curr
  detail_of timeframe (missing prev curr) = gap_detail date_parse timeframe prev curr
  detail_of timeframe (stale t age) = failure_detail timeframe stale_data
  detail_of timeframe _ = failure_detail timeframe malformed_candle

  -- `fail`, for the first fault that the checks find.
  abbrev pub fail_with :
      String
      → MarketTimeframe
      → Option (CandleFault Num)
      → Result (MarketDataProviderError Num) Bool
  fail_with instrument timeframe none = ok true
  fail_with instrument timeframe (some fault) = err (record {
    instrument = instrument;
    fault = fault;
    reason = malformed_data;
    detail = some (detail_of timeframe fault);
  })

module _ {Num : Type 0} ⦃num : Numbers Num⦄ where
  abbrev pub is_infinite : Num → Bool
  is_infinite x = if num.is_finite x then false else true

  abbrev pub volume_fault : String → Option Num → Option (CandleFault Num)
  volume_fault timestamp none = none
  volume_fault timestamp (some volume) =
      first_of (fault_if (is_infinite volume) (non_finite_volume volume timestamp))
        (fault_if (num.lt volume (num.lit 0)) (negative_volume volume timestamp))

  abbrev pub price_fault : HistoricalCandle Num → Option (CandleFault Num)
  price_fault c =
      first_of (fault_if (is_infinite c.open_price) (non_finite open_name c.open_price c.timestamp))
        (first_of (fault_if (is_infinite c.high) (non_finite high_name c.high c.timestamp)) (
          first_of (fault_if (is_infinite c.low) (non_finite low_name c.low c.timestamp))
            (fault_if (is_infinite c.close) (non_finite close_name c.close c.timestamp))))

  abbrev pub range_fault : HistoricalCandle Num → Option (CandleFault Num)
  range_fault c =
      let zero_price = num.lit 0 in
      first_of
        (fault_if
          (num.le c.open_price zero_price
            || (num.le c.high zero_price || (num.le c.low zero_price || num.le c.close zero_price)))
          (non_positive c))
        (first_of (fault_if (num.lt c.high c.low) (high_below_low c)) (
          fault_if
            (num.lt c.high c.open_price
              || (num.lt c.open_price c.low || (num.lt c.high c.close || num.lt c.close c.low)))
            (outside_range c)))

  module _ (date_parse : String → Option ℤ) where
    unfoldable pub candle_fault : List String → HistoricalCandle Num → Option (CandleFault Num)
    candle_fault seen c =
        first_of (fault_if (any (λ t. t == c.timestamp) seen) (duplicate c.timestamp)) (
          first_of
            (fault_if (is_unparseable date_parse c.timestamp) (unparseable_timestamp c.timestamp))
            (first_of (price_fault c)
              (first_of (range_fault c) (volume_fault c.timestamp c.volume))))

    unfoldable pub candles_fault :
        List String → List (HistoricalCandle Num) → Option (CandleFault Num)
    unfolding candle_fault
    candles_fault seen [] = none
    candles_fault seen (c ∷ cs) =
        first_of (candle_fault seen c) (candles_fault (c.timestamp ∷ seen) cs)

    -- `default_policy` is what `weekday_session` makes of `default_equity_session`.
    module _ (locale_compare : String → String → ℤ) (to_upper_case : String → String)
        (default_policy : MarketHoursPolicy) where
      unfoldable pub first_fault :
          List (HistoricalCandle Num)
          → String
          → ValidateHistoricalCandlesOptions
          → Option (CandleFault Num)
      unfolding sort candles_fault gaps_fault
      first_fault candles instrument options =
          let sorted = sort locale_compare (λ c. c.timestamp) candles in
          let expected = timeframe_duration_ms options.timeframe in
          let is_crypto =
            is_always_open (resolve_market_session to_upper_case instrument options.now) in
          let policy = get_or_else options.equity_market_hours_policy default_policy in
          first_of (fault_if (ltb (length candles) min_required_candles) (too_few (length candles)))
            (first_of (candles_fault [] candles) (
              first_of (gaps_fault date_parse is_crypto policy expected sorted)
                (latest_fault date_parse options sorted)))

      unfoldable pub validate_historical_candles :
          List (HistoricalCandle Num)
          → String
          → ValidateHistoricalCandlesOptions
          → Result (MarketDataProviderError Num) Bool
      unfolding first_fault
      validate_historical_candles candles instrument options =
          fail_with date_parse instrument options.timeframe (first_fault candles instrument options)
