-- ===== src/Lifecycle/Store.antt =====
-- trade-lifecycle/trade-lifecycle-store.ts: `InMemoryTradeLifecycleStore`. Records are values here,
-- so the copies that the source makes on the way in and out are the identity.
pub mod Invariant
pub mod Writes
pub mod Updates
use trading_intelligence.Common.{
  ℕ, String, Bool, true, false, not, ◌&&◌, List, [], ◌∷◌, Option, none, some, ◌==◌, filter, find,
  length, Result, ok, err, if◌then◌else◌, is_set, get_or_else, leb,
}
use trading_intelligence.Common.Dict.{Dict, get, has, set, values}
use trading_intelligence.Common.Numbers.{Numbers}
use trading_intelligence.Common.Time.{Timestamp, date_parse}
use trading_intelligence.Lifecycle.Errors.{
  LifecycleError, already_exists, unknown_record, broker_position_clash, strategy_instrument_clash,
}
use trading_intelligence.Lifecycle.Record.{TradeLifecycleRecord}
use trading_intelligence.Lifecycle.Status.{
  TradeLifecycleStatus, includes, open_statuses, active_broker_position_statuses,
  active_strategy_instrument_statuses, closed, closed_unreconciled,
}

abbrev pub Store : Type 0 → Type 0
Store Num = Dict (TradeLifecycleRecord Num)

-- `a === b` of two optional texts.
unfoldable pub same_text : Option String → Option String → Bool
same_text none none = true
same_text (some a) (some b) = a == b
same_text _ _ = false

-- `Number.isFinite(updatedAtMs) && updatedAtMs <= updatedBeforeMs`: NaN compares as false.
unfoldable pub updated_by : Timestamp → Timestamp → Bool
updated_by before at = elim (date_parse at) [
  | none ↦ false
  | some at_ms ↦ elim (date_parse before) [ none ↦ false | some before_ms ↦ leb at_ms before_ms ]
]

module _ {Num : Type 0} where
  -- `r.id !== excludeId`
  unfoldable pub other_than : Option String → TradeLifecycleRecord Num → Bool
  unfolding same_text
  other_than exclude r = not (same_text (some r.id) exclude)

  unfoldable pub holds_position : TradeLifecycleRecord Num → Bool
  unfolding includes active_broker_position_statuses
  holds_position r = includes active_broker_position_statuses r.status

  unfoldable pub holds_slot : TradeLifecycleRecord Num → Bool
  unfolding includes active_strategy_instrument_statuses
  holds_slot r = includes active_strategy_instrument_statuses r.status

  unfoldable pub same_position : TradeLifecycleRecord Num → TradeLifecycleRecord Num → Bool
  unfolding same_text
  same_position r s =
      (r.broker_provider == s.broker_provider)
      && same_text r.broker_position_id s.broker_position_id

  unfoldable pub same_slot : TradeLifecycleRecord Num → TradeLifecycleRecord Num → Bool
  same_slot r s = (r.strategy_id == s.strategy_id) && (r.symbol == s.symbol)

  unfoldable pub position_clash :
      Store Num → TradeLifecycleRecord Num → Option String → Option (TradeLifecycleRecord Num)
  unfolding other_than holds_position same_position values
  position_clash records record' exclude =
      find (λ r. other_than exclude r && (same_position r record' && holds_position r))
        (values records)

  unfoldable pub slot_clash :
      Store Num → TradeLifecycleRecord Num → Option String → Option (TradeLifecycleRecord Num)
  unfolding other_than holds_slot same_slot values
  slot_clash records record' exclude =
      find (λ r. other_than exclude r && (same_slot r record' && holds_slot r)) (values records)

  -- `assertNoActiveClash`: the error that it throws, or `none`.
  unfoldable pub active_clash :
      Store Num → TradeLifecycleRecord Num → Option String → Option (LifecycleError Num)
  unfolding position_clash slot_clash holds_position holds_slot
  active_clash records record' exclude =
      let second =
        if holds_slot record'
        then elim (slot_clash records record' exclude) [
          | some r ↦ some (strategy_instrument_clash r.id)
          | none ↦ none
        ]
        else none in
      if holds_position record' && is_set record'.broker_position_id
      then elim (position_clash records record' exclude) [
        | some r ↦ some (broker_position_clash r.id)
        | none ↦ second
      ]
      else second

  unfoldable pub create :
      TradeLifecycleRecord Num → Store Num → Result (LifecycleError Num) (Store Num)
  unfolding active_clash has
  create r records =
      if has r.id records
      then err (already_exists r.id)
      else elim (active_clash records r none) [ some e ↦ err e | none ↦ ok (set r.id r records) ]

  unfoldable pub get_by_id : String → Store Num → Option (TradeLifecycleRecord Num)
  get_by_id id records = get id records

  unfoldable pub update :
      TradeLifecycleRecord Num → Store Num → Result (LifecycleError Num) (Store Num)
  unfolding active_clash has
  update r records =
      if has r.id records
      then elim (active_clash records r (some r.id)) [
        | some e ↦ err e
        | none ↦ ok (set r.id r records)
      ]
      else err (unknown_record r.id)

  unfoldable pub list_open : Store Num → List (TradeLifecycleRecord Num)
  unfolding values includes open_statuses
  list_open records = filter (λ r. includes open_statuses r.status) (values records)

  unfoldable pub list_closed : Store Num → List (TradeLifecycleRecord Num)
  unfolding values includes
  list_closed records = filter (λ r. includes (closed ∷ []) r.status) (values records)

  unfoldable pub list_unreconciled : Store Num → List (TradeLifecycleRecord Num)
  unfolding values includes
  list_unreconciled records =
      filter (λ r. includes (closed_unreconciled ∷ []) r.status) (values records)

  unfoldable pub list_active_lifecycle_records :
      String → String → List TradeLifecycleStatus → Store Num → List (TradeLifecycleRecord Num)
  unfolding values includes
  list_active_lifecycle_records strategy_id instrument statuses records =
      filter
        (λ r.
          (r.strategy_id == strategy_id)
          && ((r.symbol == instrument) && includes statuses r.status))
        (values records)

  unfoldable pub list_recoverable_lifecycle_records :
      String
      → String
      → List TradeLifecycleStatus
      → Timestamp
      → Store Num
      → List (TradeLifecycleRecord Num)
  unfolding values includes updated_by
  list_recoverable_lifecycle_records strategy_id instrument statuses updated_before records =
      filter
        (λ r.
          (r.strategy_id == strategy_id)
          && ((r.symbol == instrument)
              && (includes statuses r.status && updated_by updated_before r.updated_at)))
        (values records)

  unfoldable pub find_lifecycle_records_by_broker_position_id :
      String → Store Num → List (TradeLifecycleRecord Num)
  unfolding values same_text
  find_lifecycle_records_by_broker_position_id id records =
      filter (λ r. same_text r.broker_position_id (some id)) (values records)

  unfoldable pub count_unreconciled_closed_trades : Store Num → ℕ
  unfolding list_unreconciled
  count_unreconciled_closed_trades records = length (list_unreconciled records)

module _ {Num : Type 0} ⦃num : Numbers Num⦄ where
  -- The closed trades that have a result: their sum, from the left, and how many they are.
  sum_results : Num → List (TradeLifecycleRecord Num) → Num
  sum_results sum [] = sum
  sum_results sum (r ∷ rs) = sum_results (num.add sum (get_or_else r.realised_pnl (num.lit 0))) rs

  unfoldable pub sum_realised_pnl_for_closed_trades : Store Num → Num × ℕ
  unfolding values includes sum_results
  sum_realised_pnl_for_closed_trades records =
      let with_result =
        filter (λ r. includes (closed ∷ []) r.status && is_set r.realised_pnl) (values records) in
      (sum_results (num.lit 0) with_result, length with_result)
