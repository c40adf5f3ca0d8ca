-- ===== src/Market/Diagnosis.antt =====
-- market-data/candle-validation.ts: `diagnoseCandleGaps`, the report on a history whether or not it is accepted.
pub mod Accepted
use trading_intelligence.Common.{
  ℕ, String, List, [], ◌∷◌, map, Option, none, some, any, length, ◌==◌, if◌then◌else◌,
}
use trading_intelligence.Common.Int.{ℤ}
use trading_intelligence.Market.Candles.{
  MarketTimeframe, timeframe_duration_ms, HistoricalCandle, CandleGapDiagnostic,
  CandleGapDiagnosticReport,
}
use trading_intelligence.Market.Validation.{sort, gap_between, exceeds_tolerance}

abbrev pub duplicates : List String → List String → List String
duplicates seen [] = []
duplicates seen (t ∷ ts) =
    let later = duplicates (t ∷ seen) ts in if any (λ s. s == t) seen then t ∷ later else later

abbrev pub first_in : List String → Option String
first_in [] = none
first_in (s ∷ ts) = some s

abbrev pub last_in : List String → Option String
last_in [] = none
last_in (s ∷ []) = some s
last_in (s ∷ t ∷ ts) = last_in (t ∷ ts)

module _ (date_parse : String → Option ℤ) where
  abbrev pub wide_gap :
      ℕ → String → String → Option ℤ → List CandleGapDiagnostic → List CandleGapDiagnostic
  wide_gap expected prev curr none later = later
  wide_gap expected prev curr (some gap) later =
      if exceeds_tolerance expected gap
      then record {
        prev_timestamp = prev;
        curr_timestamp = curr;
        gap_ms = gap;
        expected_interval_ms = expected;
      }
        ∷ later
      else later

  abbrev pub wide_gaps : ℕ → List String → List CandleGapDiagnostic
  wide_gaps expected [] = []
  wide_gaps expected (s ∷ []) = []
  wide_gaps expected (s ∷ t ∷ ts) =
      wide_gap expected s t (gap_between (date_parse s) (date_parse t))
        (wide_gaps expected (t ∷ ts))

  module _ {Num : Type 0} (locale_compare : String → String → ℤ) where
    unfoldable pub diagnose_candle_gaps :
        List (HistoricalCandle Num) → String → MarketTimeframe → CandleGapDiagnosticReport
    unfolding sort
    diagnose_candle_gaps candles instrument timeframe =
        let raw = map (λ c. c.timestamp) candles in
        let normalised = sort locale_compare (λ t. t) raw in
        record {
          requested_instrument = instrument;
          requested_timeframe = timeframe;
          raw_candle_count = length candles;
          raw_timestamps = raw;
          normalised_timestamps = normalised;
          duplicate_timestamps = duplicates [] raw;
          first_timestamp = first_in normalised;
          last_timestamp = last_in normalised;
          gaps = wide_gaps (timeframe_duration_ms timeframe) normalised;
        }
