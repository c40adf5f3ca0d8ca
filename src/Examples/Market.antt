-- ===== src/Examples/Market.antt =====
-- Hours, gaps and histories at concrete inputs: an equity's hourly candles across a weekend.
use trading_intelligence.Common.{
  ℕ, zero, suc, ◌+◌, ◌-◌, ◌*◌, ◌≡◌, ◌↔◌, refl, String, true, ◌||◌, List, [], ◌∷◌, Option, none,
  some, ok, arith, All, ltb, leb,
}
use trading_intelligence.Common.Decimal.{decimal}
use trading_intelligence.Common.Int.{ℤ, pos, ◌-ℤ◌, ◌+ℤ◌, ◌*ℤ◌, pos_part}
use trading_intelligence.Common.Numbers.{integers}
use trading_intelligence.Market.Hours.{
  MarketHoursPolicy, parse_minutes_of_day, codes, resolve_market_session, crypto_symbols,
}
use trading_intelligence.Market.Hours.Clock.{clock_text, parse_minutes_of_day-clock_text}
use trading_intelligence.Market.Gaps.{
  GapClosureCheckResult, is_gap_explained_by_market_closure, check_gap, check_boundaries,
}
use trading_intelligence.Market.Gaps.Closed.{is_gap_explained_by_market_closure-ends}
use trading_intelligence.Market.Candles.{
  HistoricalCandle, ValidateHistoricalCandlesOptions, hour_1, missing,
}
use trading_intelligence.Market.Validation.{
  insert, sort, candle_fault, candles_fault, gaps_fault, first_fault, validate_historical_candles,
  is_always_open,
}
use trading_intelligence.Market.Validation.Trust.{IsTrusted, validate_historical_candles-IsTrusted}
use trading_intelligence.Market.Diagnosis.{diagnose_candle_gaps}
use trading_intelligence.Market.Diagnosis.Accepted.{IsClosure, diagnose_candle_gaps-IsClosure}

abbrev same_case : String → String
same_case s = s

-- A timestamp's text is the number of its hour.
abbrev number_of : ℕ → List ℕ → ℕ
number_of n [] = n
number_of n (c ∷ cs) = number_of (n * 10 + (c - 48)) cs

abbrev hour_parse : String → Option ℤ
hour_parse s = some (pos (number_of 0 (codes s) * 3600000))

abbrev hour_compare : String → String → ℤ
hour_compare a b = pos (number_of 0 (codes a)) -ℤ pos (number_of 0 (codes b))

-- Closed for 64 hours.
abbrev weekend : MarketHoursPolicy
weekend at = ltb (pos_part at) 90000000 || leb 320400000 (pos_part at)

abbrev candle_at : ℕ → HistoricalCandle ℤ
candle_at hour = record {
  timestamp = decimal hour;
  open_price = pos 100;
  high = pos 110;
  low = pos 90;
  close = pos 105;
  volume = none;
}

abbrev hours_from : ℕ → ℕ → List (HistoricalCandle ℤ)
hours_from hour zero = []
hours_from hour (suc n) = candle_at hour ∷ hours_from (suc hour) n

abbrev before_weekend : List (HistoricalCandle ℤ)
before_weekend = hours_from 0 25

abbrev after_weekend : List (HistoricalCandle ℤ) → List (HistoricalCandle ℤ)
after_weekend [] = hours_from 89 25
after_weekend (c ∷ cs) = c ∷ after_weekend cs

abbrev history : List (HistoricalCandle ℤ)
history = after_weekend before_weekend

abbrev hourly : ValidateHistoricalCandlesOptions
hourly = record {
  timeframe = hour_1;
  max_candle_age_seconds = 7200;
  now = 408600000;
  equity_market_hours_policy = some weekend;
}

history_passes :
    validate_historical_candles hour_parse hour_compare same_case weekend history "AAPL" hourly
    ≡ ok true
unfolding validate_historical_candles first_fault candle_fault candles_fault gaps_fault insert sort
    check_gap check_boundaries is_gap_explained_by_market_closure resolve_market_session
    crypto_symbols ◌-ℤ◌ ◌+ℤ◌ ◌*ℤ◌ decimal
history_passes = refl

-- Without the hours of the market the same history misses candles.
history_misses :
    first_fault hour_parse hour_compare same_case weekend history "BTC" hourly
    ≡ some (missing "24" "89")
unfolding first_fault candle_fault candles_fault gaps_fault insert sort check_gap check_boundaries
    is_gap_explained_by_market_closure resolve_market_session crypto_symbols ◌-ℤ◌ ◌+ℤ◌ ◌*ℤ◌ decimal
history_misses = refl

parse_minutes_of_day-clock_text_example :
    parse_minutes_of_day (clock_text 570) "sessionStart" ≡ ok 570
parse_minutes_of_day-clock_text_example =
    parse_minutes_of_day-clock_text 570 "sessionStart" (omega arith)

is_gap_explained_by_market_closure-ends_example :
    (r : GapClosureCheckResult) × (is_gap_explained_by_market_closure
        (some (pos 86400000))
        (some (pos 320400000))
        3600000
        weekend
      ≡ some r)
is_gap_explained_by_market_closure-ends_example =
    is_gap_explained_by_market_closure-ends weekend 3600000 (omega arith) (some (pos 86400000))
      (some (pos 320400000))

validate_historical_candles-IsTrusted_example :
    (validate_historical_candles hour_parse hour_compare same_case weekend history "AAPL" hourly
      ≡ ok true)
    ↔ IsTrusted hour_parse hour_compare same_case weekend history "AAPL" hourly
validate_historical_candles-IsTrusted_example =
    validate_historical_candles-IsTrusted hour_parse hour_compare same_case weekend history "AAPL"
      hourly

diagnose_candle_gaps-IsClosure_example :
    ((diagnose_candle_gaps hour_parse hour_compare history "AAPL" hour_1).duplicate_timestamps ≡ [])
    × All
        (IsClosure hour_parse
          (is_always_open (resolve_market_session same_case "AAPL" 408600000))
          weekend)
        (diagnose_candle_gaps hour_parse hour_compare history "AAPL" hour_1).gaps
diagnose_candle_gaps-IsClosure_example =
    diagnose_candle_gaps-IsClosure hour_parse hour_compare same_case weekend history "AAPL" hourly
      history_passes
