-- ===== src/Lifecycle/Service/Closing.antt =====
-- trade-lifecycle/trade-lifecycle-service.ts: `recordClosed` and `updateExcursion`.
use trading_intelligence.Common.{
  Option, some, none, ◌&&◌, if◌then◌else◌, get_or_else, ◌>>=◌, ◌>>◌, return, throw,
}
use trading_intelligence.Common.Numbers.{Numbers}
use trading_intelligence.Common.Time.{Timestamp}
use trading_intelligence.Domain.Audit.{AuditEventType}
use trading_intelligence.Lifecycle.Calculations.{
  ExcursionValues, calculate_realised_pnl, calculate_realised_pnl_percent,
  calculate_holding_duration_ms, update_excursion_values,
}
use trading_intelligence.Lifecycle.Errors.{never_opened, not_live, missing_entry_price}
use trading_intelligence.Lifecycle.Record.{TradeLifecycleRecord, RecordClosedInput}
use trading_intelligence.Lifecycle.Status.{closed, includes, open_statuses}
use trading_intelligence.Lifecycle.Store.{update}
use trading_intelligence.Lifecycle.World.{Env, Lm, LifecycleDetail, lift, store_write, now_iso}
use trading_intelligence.Lifecycle.Service.{audit, transition, given_or_now}

module _ {Num S : Type 0} ⦃num : Numbers Num⦄ (env : Env) where
  -- What follows the guard of `recordClosed`, for a record with an entry price and an opening time.
  unfoldable pub close_opened :
      TradeLifecycleRecord Num
      → RecordClosedInput Num
      → Num
      → Timestamp
      → Lm Num S (TradeLifecycleRecord Num)
  unfolding transition audit calculate_realised_pnl calculate_realised_pnl_percent
      calculate_holding_duration_ms
  close_opened r input entry_price opened_at = do
    closed_at ← given_or_now env input.closed_at
    realised_pnl ←
        lift (calculate_realised_pnl r.sizing_mode r.side entry_price input.exit_price r.quantity)
    realised_pnl_percent ← lift (
        calculate_realised_pnl_percent r.sizing_mode r.side entry_price input.exit_price r.quantity)
    holding_duration_ms ← lift (calculate_holding_duration_ms opened_at closed_at)
    updated ← transition env r closed (record r {
      exit_price = some input.exit_price;
      exit_reason = some input.exit_reason;
      closed_at = some closed_at;
      realised_pnl = some realised_pnl;
      realised_pnl_percent = some realised_pnl_percent;
      holding_duration_ms = some holding_duration_ms;
    })
    audit env AuditEventType.trade_closed updated (
        LifecycleDetail.closed r.entry_price input.exit_price input.exit_reason realised_pnl
          realised_pnl_percent holding_duration_ms updated.broker_position_id closed_at)
    return updated

  -- The guard of `recordClosed`.
  unfoldable pub close_if_opened :
      TradeLifecycleRecord Num
      → RecordClosedInput Num
      → Option Num
      → Option Timestamp
      → Lm Num S (TradeLifecycleRecord Num)
  unfolding close_opened
  close_if_opened r input (some entry_price) (some opened_at) =
      close_opened r input entry_price opened_at
  close_if_opened r input (some entry_price) none = throw (never_opened r.id)
  close_if_opened r input none opened_at = throw (never_opened r.id)

  unfoldable pub record_closed :
      TradeLifecycleRecord Num → RecordClosedInput Num → Lm Num S (TradeLifecycleRecord Num)
  unfolding close_if_opened
  record_closed r input = close_if_opened r input r.entry_price r.opened_at

  -- The write and the event of `updateExcursion`, left out where neither figure has changed.
  unfoldable pub excursion_to :
      TradeLifecycleRecord Num
      → Num
      → ExcursionValues Num
      → ExcursionValues Num
      → Lm Num S (TradeLifecycleRecord Num)
  unfolding audit update
  excursion_to r current_price previous next =
      if num.eq next.maximum_favourable_excursion previous.maximum_favourable_excursion
        && num.eq next.maximum_adverse_excursion previous.maximum_adverse_excursion
      then return r
      else (do
        timestamp ← now_iso env
        let updated = record r {
          maximum_favourable_excursion = some next.maximum_favourable_excursion;
          maximum_adverse_excursion = some next.maximum_adverse_excursion;
          updated_at = timestamp;
        }
        store_write (update updated)
        audit env AuditEventType.trade_excursion_updated updated (
            LifecycleDetail.excursion current_price next.maximum_favourable_excursion
              next.maximum_adverse_excursion)
        return updated)

  unfoldable pub excursion_if_priced :
      TradeLifecycleRecord Num → Num → Option Num → Lm Num S (TradeLifecycleRecord Num)
  unfolding excursion_to update_excursion_values
  excursion_if_priced r current_price none = throw (missing_entry_price r.id)
  excursion_if_priced r current_price (some entry_price) = do
    let previous : ExcursionValues Num = record {
      maximum_favourable_excursion = get_or_else r.maximum_favourable_excursion (num.lit 0);
      maximum_adverse_excursion = get_or_else r.maximum_adverse_excursion (num.lit 0);
    }
    next ←
        lift (
          update_excursion_values r.sizing_mode r.side entry_price current_price r.quantity
            previous)
    excursion_to r current_price previous next

  unfoldable pub update_excursion :
      TradeLifecycleRecord Num → Num → Lm Num S (TradeLifecycleRecord Num)
  unfolding excursion_if_priced includes open_statuses
  update_excursion r current_price =
      if includes open_statuses r.status
      then excursion_if_priced r current_price r.entry_price
      else throw (not_live r.id r.status)
