-- ===== src/Market/Candles.antt =====
-- The data of market-data/candle-validation.ts, and the error of market-data-provider.ts that it raises.
use trading_intelligence.Common.{ℕ, ◌*◌, String, List, Option}
use trading_intelligence.Common.Int.{ℤ}
use trading_intelligence.Market.Hours.{MarketHoursPolicy}
use trading_intelligence.Market.Gaps.{GapReason}

pub data MarketTimeframe : Type 0 where
  minute_1 minute_5 minute_10 minute_15 minute_30 hour_1 hour_4 day_1 week_1 : MarketTimeframe

abbrev pub timeframe_text : MarketTimeframe → String
timeframe_text minute_1 = "1m"
timeframe_text minute_5 = "5m"
timeframe_text minute_10 = "10m"
timeframe_text minute_15 = "15m"
timeframe_text minute_30 = "30m"
timeframe_text hour_1 = "1h"
timeframe_text hour_4 = "4h"
timeframe_text day_1 = "1d"
timeframe_text week_1 = "1w"

abbrev pub timeframe_duration_ms : MarketTimeframe → ℕ
timeframe_duration_ms minute_1 = 60000
timeframe_duration_ms minute_5 = 5 * 60000
timeframe_duration_ms minute_10 = 10 * 60000
timeframe_duration_ms minute_15 = 15 * 60000
timeframe_duration_ms minute_30 = 30 * 60000
timeframe_duration_ms hour_1 = 3600000
timeframe_duration_ms hour_4 = 4 * 3600000
timeframe_duration_ms day_1 = 24 * 3600000
timeframe_duration_ms week_1 = 7 * (24 * 3600000)

abbrev pub min_required_candles : ℕ
min_required_candles = 50

-- The candle of types.ts with the text of its timestamp, which the checks compare and parse.
pub record HistoricalCandle (Num : Type 0) : Type 0 where
  pub timestamp : String
  pub open_price : Num
  pub high : Num
  pub low : Num
  pub close : Num
  pub volume : Option Num

-- `maxCandleAgeSeconds` is a whole number; an instant is milliseconds since the epoch.
pub record ValidateHistoricalCandlesOptions : Type 0 where
  pub timeframe : MarketTimeframe
  pub max_candle_age_seconds : ℕ
  pub now : ℕ
  pub equity_market_hours_policy : Option MarketHoursPolicy

pub data PriceName : Type 0 where
  open_name high_name low_name close_name : PriceName

-- What an error message is about, with the values that it names.
pub data CandleFault (Num : Type 0) : Type 0 where
  too_few : ℕ → CandleFault Num
  duplicate : String → CandleFault Num
  unparseable_timestamp : String → CandleFault Num
  non_finite : PriceName → Num → String → CandleFault Num
  non_positive : HistoricalCandle Num → CandleFault Num
  high_below_low : HistoricalCandle Num → CandleFault Num
  outside_range : HistoricalCandle Num → CandleFault Num
  non_finite_volume : Num → String → CandleFault Num
  negative_volume : Num → String → CandleFault Num
  gap_too_large : String → String → GapReason → CandleFault Num
  missing : String → String → CandleFault Num
  stale : String → ℤ → CandleFault Num
  -- The fuel of the check of a gap has run out.
  unfinished : CandleFault Num

pub data FailureCategory : Type 0 where
  insufficient_candle_count malformed_candle duplicate_timestamp : FailureCategory
  missing_candles stale_data fetch_failed : FailureCategory

pub record MarketDataFailureDetail : Type 0 where
  pub category : FailureCategory
  pub timeframe : Option String
  pub missing_interval_start_ms : Option ℤ
  pub missing_interval_end_ms : Option ℤ

pub data FailureReason : Type 0 where
  fetch_failed_reason malformed_data : FailureReason

pub record MarketDataProviderError (Num : Type 0) : Type 0 where
  pub instrument : String
  pub fault : CandleFault Num
  pub reason : FailureReason
  pub detail : Option MarketDataFailureDetail

pub record CandleGapDiagnostic : Type 0 where
  pub prev_timestamp : String
  pub curr_timestamp : String
  pub gap_ms : ℤ
  pub expected_interval_ms : ℕ

pub record CandleGapDiagnosticReport : Type 0 where
  pub requested_instrument : String
  pub requested_timeframe : MarketTimeframe
  pub raw_candle_count : ℕ
  pub raw_timestamps : List String
  pub normalised_timestamps : List String
  pub duplicate_timestamps : List String
  pub first_timestamp : Option String
  pub last_timestamp : Option String
  pub gaps : List CandleGapDiagnostic
