-- ===== src/Lifecycle/Service.antt =====
-- trade-lifecycle/trade-lifecycle-service.ts: the methods that create and change records.
pub mod Closing
pub mod Announced
pub mod Calls
pub mod Runs
pub mod Advance
pub mod Filled
pub mod History
pub mod Stored
use trading_intelligence.Common.{
  String, Bool, true, false, ◌&&◌, ◌||◌, not, List, Option, some, none, ◌==◌, find, if◌then◌else◌,
  is_set, get_or_else, ok, err, Result, ◌>>=◌, ◌>>◌, return, throw,
}
use trading_intelligence.Common.Numbers.{Numbers}
use trading_intelligence.Common.Time.{Timestamp}
use trading_intelligence.Domain.Audit.{AuditEventType}
use trading_intelligence.Domain.Orders.{OrderSide}
use trading_intelligence.Domain.Market.{MarketDecision}
use trading_intelligence.Risk.Portfolio.{
  PortfolioRiskDecision, blocked_reasons, equity_of, exposure_of,
}
use trading_intelligence.Lifecycle.Calculations.{
  ExcursionValues, calculate_realised_pnl, calculate_realised_pnl_percent,
  calculate_holding_duration_ms, update_excursion_values,
}
use trading_intelligence.Lifecycle.Errors.{
  LifecycleError, Message, invalid_transition, never_opened, not_live, missing_entry_price,
}
use trading_intelligence.Lifecycle.Record.{
  TradeLifecycleRecord, TradeLifecycleError, CreateFromDecisionInput, RecordOpenedInput,
  RecordClosedInput,
}
use trading_intelligence.Lifecycle.Status.{
  TradeLifecycleStatus, decision_created, risk_rejected, approved, execution_submitted, open_status,
  execution_failed, close_requested, closed, close_failed, can_move, includes, open_statuses,
}
use trading_intelligence.Lifecycle.Store.{create, update, list_open}
use trading_intelligence.Lifecycle.World.{
  World, Env, Lm, LifecycleDetail, nothing_more, lifecycle, lift, store_write, read_store,
  record_audit, now_iso, draw_id,
}
use trading_intelligence.Lifecycle.World

abbrev pub TradeRecord : Type 0 → Type 0
TradeRecord Num = TradeLifecycleRecord Num

module _ {Num : Type 0} where
  -- The record that `createFromDecision` makes.
  unfoldable pub new_record :
      CreateFromDecisionInput Num → String → Timestamp → TradeLifecycleRecord Num
  new_record input id timestamp = record {
    id = id;
    strategy_id = input.strategy_id;
    strategy_version = input.strategy_version;
    candidate_id = input.candidate_id;
    broker_provider = input.broker_provider;
    symbol = input.symbol;
    side = input.side;
    quantity = input.quantity;
    sizing_mode = input.sizing_mode;
    decision = input.decision.action;
    confidence = input.decision.confidence;
    decision_reasons = input.decision.reasoning;
    market_data_snapshot = some input.market_data_snapshot;
    intelligence_summary = some input.intelligence_summary;
    portfolio_risk_decision = none;
    status = decision_created;
    created_at = timestamp;
    updated_at = timestamp;
    submitted_at = none;
    opened_at = none;
    closed_at = none;
    entry_price = none;
    stop_loss = input.stop_loss;
    take_profit = input.take_profit;
    exit_price = none;
    broker_order_id = none;
    broker_position_id = none;
    exit_reason = none;
    realised_pnl = none;
    realised_pnl_percent = none;
    holding_duration_ms = none;
    maximum_favourable_excursion = none;
    maximum_adverse_excursion = none;
    error = none;
  }

module _ {Num S : Type 0} where
  -- `assertValidTransition`
  unfoldable pub assert_valid_transition :
      TradeLifecycleStatus → TradeLifecycleStatus → Lm Num S (Unit {0})
  unfolding can_move
  assert_valid_transition from to =
      if can_move from to then return tt else throw (invalid_transition from to)

  module _ (env : Env) where
    -- The private `audit`: one event about the record, at the clock's next reading.
    unfoldable pub audit :
        AuditEventType → TradeLifecycleRecord Num → LifecycleDetail Num → Lm Num S (Unit {0})
    audit event_type r detail = do
      timestamp ← now_iso env
      record_audit (record {
        timestamp = timestamp;
        event_type = event_type;
        execution_run_id = env.execution_run_id;
        strategy_id = some r.strategy_id;
        strategy_version = none;
        source_type = none;
        instrument = some r.symbol;
        details = lifecycle r.id r.status detail;
      })

    -- The private `transition`; `patched` is the record with the patch of the caller.
    unfoldable pub transition :
        TradeLifecycleRecord Num
        → TradeLifecycleStatus
        → TradeLifecycleRecord Num
        → Lm Num S (TradeLifecycleRecord Num)
    unfolding assert_valid_transition update
    transition r to patched = do
      assert_valid_transition r.status to
      timestamp ← now_iso env
      let updated = record patched { status = to; updated_at = timestamp }
      store_write (update updated)
      return updated

    unfoldable pub build_error : Message Num → Lm Num S (TradeLifecycleError Num)
    build_error message = do
      timestamp ← now_iso env
      return (record { message = message; occurred_at = timestamp })

    unfoldable pub create_from_decision :
        CreateFromDecisionInput Num → Lm Num S (TradeLifecycleRecord Num)
    unfolding new_record audit create
    create_from_decision input = do
      timestamp ← now_iso env
      id ← draw_id env
      let r = new_record input id timestamp
      store_write (create r)
      audit AuditEventType.trade_lifecycle_created r
          (LifecycleDetail.created r.decision r.confidence r.quantity)
      return r

    -- The decision is a blocked one where the source calls this, and a permitted one below.
    unfoldable pub record_risk_rejected :
        TradeLifecycleRecord Num → PortfolioRiskDecision Num → Lm Num S (TradeLifecycleRecord Num)
    unfolding transition audit
    record_risk_rejected r decision = do
      updated ← transition r risk_rejected (record r { portfolio_risk_decision = some decision })
      audit AuditEventType.trade_risk_rejected updated
          (LifecycleDetail.risk_rejected (blocked_reasons decision))
      return updated

    unfoldable pub record_approved :
        TradeLifecycleRecord Num → PortfolioRiskDecision Num → Lm Num S (TradeLifecycleRecord Num)
    unfolding transition audit
    record_approved r decision = do
      updated ← transition r approved (record r { portfolio_risk_decision = some decision })
      audit AuditEventType.trade_approved updated
          (LifecycleDetail.approved (equity_of decision) (exposure_of decision))
      return updated

    unfoldable pub record_execution_submitted :
        TradeLifecycleRecord Num → Lm Num S (TradeLifecycleRecord Num)
    unfolding transition audit
    record_execution_submitted r = do
      submitted_at ← now_iso env
      updated ← transition r execution_submitted (record r { submitted_at = some submitted_at })
      audit AuditEventType.trade_execution_submitted updated nothing_more
      return updated

    -- `input.openedAt ?? this.now().toISOString()`
    abbrev pub given_or_now : Option Timestamp → Lm Num S Timestamp
    given_or_now (some t) = return t
    given_or_now none = now_iso env

    unfoldable pub record_opened :
        TradeLifecycleRecord Num → RecordOpenedInput Num → Lm Num S (TradeLifecycleRecord Num)
    unfolding transition audit
    record_opened r input = do
      opened_at ← given_or_now input.opened_at
      updated ← transition r open_status (record r {
        entry_price = some input.entry_price;
        broker_order_id = some input.broker_order_id;
        broker_position_id = input.broker_position_id;
        opened_at = some opened_at;
      })
      audit AuditEventType.trade_opened updated (
          LifecycleDetail.opened input.entry_price input.broker_order_id input.broker_position_id
            updated.side updated.quantity updated.sizing_mode updated.stop_loss updated.take_profit
            opened_at)
      return updated

    unfoldable pub record_execution_failed :
        TradeLifecycleRecord Num → Message Num → Lm Num S (TradeLifecycleRecord Num)
    unfolding build_error transition audit
    record_execution_failed r message = do
      error ← build_error message
      updated ← transition r execution_failed (record r { error = some error })
      audit AuditEventType.trade_execution_failed updated (LifecycleDetail.failed message)
      return updated

    unfoldable pub record_close_requested :
        TradeLifecycleRecord Num → Lm Num S (TradeLifecycleRecord Num)
    unfolding transition audit
    record_close_requested r = do
      updated ← transition r close_requested r
      audit AuditEventType.trade_close_requested updated nothing_more
      return updated

    unfoldable pub record_close_failed :
        TradeLifecycleRecord Num → Message Num → Lm Num S (TradeLifecycleRecord Num)
    unfolding build_error transition audit
    record_close_failed r message = do
      error ← build_error message
      updated ← transition r close_failed (record r { error = some error })
      audit AuditEventType.trade_close_failed updated (LifecycleDetail.failed message)
      return updated

    -- `findOpenRecord`
    unfoldable pub find_open_record : String → String → Lm Num S (Option (TradeLifecycleRecord Num))
    unfolding list_open
    find_open_record strategy_id symbol = read_store λ records.
        find (λ r. (r.strategy_id == strategy_id) && (r.symbol == symbol)) (list_open records)
