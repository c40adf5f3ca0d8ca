-- ===== src/Runtime/IncidentTypes.antt =====
-- runtime/market-data-incident-tracker.ts: the reasons, incidents and transitions that it names.
use trading_intelligence.Common.{ℕ, String, Bool, List, [], ◌∷◌, Option, some, none, get_or_else}
use trading_intelligence.Common.Decimal.{decimal}
use Prim.Native.String

pub data IncidentCategory : Type 0 where
  insufficient_candle_count malformed_candle duplicate_timestamp missing_candles : IncidentCategory
  stale_data fetch_failed unknown : IncidentCategory

unfoldable pub category_text : IncidentCategory → String
category_text insufficient_candle_count = "insufficient-candle-count"
category_text malformed_candle = "malformed-candle"
category_text duplicate_timestamp = "duplicate-timestamp"
category_text missing_candles = "missing-candles"
category_text stale_data = "stale-data"
category_text fetch_failed = "fetch-failed"
category_text unknown = "unknown"

pub record CanonicalIncidentReason : Type 0 where
  pub category : IncidentCategory
  pub timeframe : Option String
  pub missing_interval_start_ms : Option ℕ
  pub missing_interval_end_ms : Option ℕ
  pub summary : String

pub record InstrumentObservation : Type 0 where
  pub instrument : String
  pub valid : Bool
  pub reason : Option CanonicalIncidentReason

-- `${value ?? ""}` of a whole number.
number_text : Option ℕ → String
unfolding decimal
number_text none = ""
number_text (some n) = decimal n

-- `[…].join("|")`
join_bars : String → List String → String
join_bars first [] = first
join_bars first (next ∷ rest) = String.◌++◌ first (String.◌++◌ "|" (join_bars next rest))

unfoldable pub compute_incident_fingerprint : String → CanonicalIncidentReason → String
unfolding join_bars number_text category_text
compute_incident_fingerprint instrument reason = join_bars instrument (
    category_text reason.category
    ∷ get_or_else reason.timeframe ""
    ∷ number_text reason.missing_interval_start_ms
    ∷ number_text reason.missing_interval_end_ms
    ∷ [])

-- Instants are milliseconds; the source keeps their ISO texts.
pub record ActiveIncidentRecord : Type 0 where
  pub instrument : String
  pub fingerprint : String
  pub category : IncidentCategory
  pub reason : CanonicalIncidentReason
  pub opened_at : ℕ
  pub last_observed_at : ℕ
  pub observation_count : ℕ
  pub consecutive_healthy_count : ℕ

pub record OpenedTransition : Type 0 where
  pub instrument : String
  pub fingerprint : String
  pub reason : CanonicalIncidentReason
  pub opened_at : ℕ
  pub observation_count : ℕ

pub record ChangedTransition : Type 0 where
  pub instrument : String
  pub fingerprint : String
  pub previous_fingerprint : String
  pub reason : CanonicalIncidentReason
  pub opened_at : ℕ
  pub observation_count : ℕ

pub record RecoveredTransition : Type 0 where
  pub instrument : String
  pub previous_fingerprint : String
  pub opened_at : ℕ
  pub recovered_at : ℕ
  pub required_consecutive_healthy : ℕ

pub record UnchangedTransition : Type 0 where
  pub instrument : String
  pub fingerprint : String
  pub observation_count : ℕ
  pub opened_at : ℕ
  pub last_observed_at : ℕ

pub record RecoveryPendingTransition : Type 0 where
  pub instrument : String
  pub fingerprint : String
  pub consecutive_healthy_count : ℕ
  pub required_consecutive_healthy : ℕ

pub record CycleIncidentOutcome : Type 0 where
  pub opened : List OpenedTransition
  pub changed : List ChangedTransition
  pub recovered : List RecoveredTransition
  pub unchanged : List UnchangedTransition
  pub recovery_pending : List RecoveryPendingTransition
