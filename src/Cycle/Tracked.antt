-- ===== src/Cycle/Tracked.antt =====
-- trade-lifecycle/trade-lifecycle-runner.ts: the decision cycle with a record of the trade around it.
pub mod Outcome
use trading_intelligence.Common.{
  String, Bool, Option, some, none, get_or_else, Result, ok, err, ◌>>=◌, ◌>>◌, return, throw,
  try_catch,
}
use trading_intelligence.Common.Numbers.{Numbers}
use trading_intelligence.Broker.{PaperBroker}
use trading_intelligence.Domain.Market.{MarketDecision, MarketDecisionAction, MarketDataSnapshot}
use trading_intelligence.Domain.Orders.{OrderSide, PaperPosition, CompletedTrade}
use trading_intelligence.Lifecycle.Errors.{
  LifecycleError, text, error_message, no_position_returned, no_trade_returned,
}
use trading_intelligence.Lifecycle.Record.{TradeLifecycleRecord, CreateFromDecisionInput}
use trading_intelligence.Lifecycle.Service.{
  create_from_decision, record_risk_rejected, record_approved, record_execution_submitted,
  record_opened, record_execution_failed, record_close_requested, record_close_failed,
  find_open_record,
}
use trading_intelligence.Lifecycle.Service.Closing.{record_closed, update_excursion}
use trading_intelligence.Lifecycle.World.{World, Env, Lm}
use trading_intelligence.Risk.Portfolio.{PortfolioRiskDecision, permitted, blocked, evaluate}
use trading_intelligence.Cycle.Runner.{
  Registry, MarketDecisionCycleInput, MarketDecisionCycleResult, ask_engine, risk_input_of,
  run_market_decision_cycle,
}

pub record TradeLifecycleCycleInput (Num : Type 0) : Type 0 where
  pub cycle : MarketDecisionCycleInput Num
  pub market_data_snapshot : MarketDataSnapshot Num
  pub broker_provider : String
  pub candidate_id : Option String
  pub stop_loss : Option Num
  pub take_profit : Option Num

pub record TradeLifecycleCycleResult (Num : Type 0) : Type 0 where
  pub result : MarketDecisionCycleResult Num
  pub lifecycle_record : Option (TradeLifecycleRecord Num)

-- What the record of a BUY is created from.
unfoldable pub created_for :
    {Num : Type 0} → TradeLifecycleCycleInput Num → MarketDecision Num → CreateFromDecisionInput Num
created_for input decision = record {
  strategy_id = input.cycle.market_context.strategy.strategy_id;
  strategy_version = input.cycle.market_context.strategy.version;
  symbol = input.cycle.market_context.instrument;
  side = OrderSide.buy;
  quantity = input.cycle.amount;
  sizing_mode = input.cycle.order_sizing_mode;
  candidate_id = input.candidate_id;
  broker_provider = input.broker_provider;
  stop_loss = input.stop_loss;
  take_profit = input.take_profit;
  decision = decision;
  market_data_snapshot = input.market_data_snapshot;
  intelligence_summary = input.cycle.market_context;
}

module _ {Num S : Type 0} ⦃num : Numbers Num⦄ (env : Env) where
  unfoldable pub mark_existing :
      TradeLifecycleCycleInput Num
      → Option (TradeLifecycleRecord Num)
      → Lm Num S (Option (TradeLifecycleRecord Num))
  unfolding update_excursion
  mark_existing input none = return none
  mark_existing input (some r) = do
    marked ← update_excursion env r input.cycle.market_context.bid
    return (some marked)

  -- The end of a BUY that went through: the runner's position opens the trade.
  unfoldable pub open_tracked :
      TradeLifecycleCycleInput Num
      → TradeLifecycleRecord Num
      → MarketDecisionCycleResult Num
      → Option (PaperPosition Num)
      → Lm Num S (TradeLifecycleCycleResult Num)
  unfolding record_opened
  open_tracked input r result none =
      throw (no_position_returned input.cycle.market_context.instrument)
  open_tracked input r result (some p) = do
    opened ← record_opened env r (record {
      entry_price = p.entry_price;
      broker_order_id = get_or_else result.order_id "";
      broker_position_id = p.broker_position_id;
      opened_at = none;
    })
    return (record { result = result; lifecycle_record = some opened })

  unfoldable pub close_tracked :
      TradeLifecycleCycleInput Num
      → TradeLifecycleRecord Num
      → MarketDecisionCycleResult Num
      → Option (CompletedTrade Num)
      → Lm Num S (TradeLifecycleCycleResult Num)
  unfolding record_closed
  close_tracked input r result none =
      throw (no_trade_returned input.cycle.market_context.instrument)
  close_tracked input r result (some trade) = do
    closed ← record_closed env r (record {
      exit_price = trade.exit_price;
      exit_reason = text trade.close_reason;
      closed_at = none;
    })
    return (record { result = result; lifecycle_record = some closed })

  -- The two `catch` blocks: the failure is recorded, and the error goes on.
  unfoldable pub buy_failed :
      TradeLifecycleRecord Num → LifecycleError Num → Lm Num S (MarketDecisionCycleResult Num)
  unfolding record_execution_failed
  buy_failed r error = do failed ← record_execution_failed env r (error_message error); throw error

  unfoldable pub sell_failed :
      TradeLifecycleRecord Num → LifecycleError Num → Lm Num S (MarketDecisionCycleResult Num)
  unfolding record_close_failed
  sell_failed r error = do failed ← record_close_failed env r (error_message error); throw error

  module _ (broker : PaperBroker Num S) (registry : Registry Num)
      (input : TradeLifecycleCycleInput Num) where
    unfoldable pub untracked : Lm Num S (TradeLifecycleCycleResult Num)
    unfolding run_market_decision_cycle
    untracked = do
      result ← run_market_decision_cycle broker env.execution_run_id registry input.cycle
      return (record { result = result; lifecycle_record = none })

    unfoldable pub buy_gated :
        TradeLifecycleRecord Num
        → PortfolioRiskDecision Num
        → Lm Num S (TradeLifecycleCycleResult Num)
    unfolding record_risk_rejected record_approved record_execution_submitted
        run_market_decision_cycle buy_failed open_tracked
    buy_gated r (blocked checks equity exposure why) = do
      rejected ← record_risk_rejected env r (blocked checks equity exposure why)
      result ← run_market_decision_cycle broker env.execution_run_id registry input.cycle
      return (record { result = result; lifecycle_record = some rejected })
    buy_gated r (permitted checks equity exposure) = do
      approved ← record_approved env r (permitted checks equity exposure)
      submitted ← record_execution_submitted env approved
      result ←
          try_catch (run_market_decision_cycle broker env.execution_run_id registry input.cycle)
            (buy_failed submitted)
      open_tracked input submitted result result.position

    unfoldable pub track_buy : MarketDecision Num → Lm Num S (TradeLifecycleCycleResult Num)
    unfolding create_from_decision created_for risk_input_of buy_gated
    track_buy decision = do
      r ← create_from_decision env (created_for input decision)
      (λ w. buy_gated r (evaluate (risk_input_of broker input.cycle w.broker)) w)

    unfoldable pub track_sell :
        Option (TradeLifecycleRecord Num) → Lm Num S (TradeLifecycleCycleResult Num)
    unfolding untracked record_close_requested run_market_decision_cycle sell_failed close_tracked
    track_sell none = untracked
    track_sell (some existing) = do
      requested ← record_close_requested env existing
      result ←
          try_catch (run_market_decision_cycle broker env.execution_run_id registry input.cycle)
            (sell_failed requested)
      close_tracked input requested result result.trade

    unfoldable pub track :
        MarketDecision Num
        → MarketDecisionAction
        → Option (TradeLifecycleRecord Num)
        → Lm Num S (TradeLifecycleCycleResult Num)
    unfolding untracked track_buy track_sell
    track decision MarketDecisionAction.hold existing = untracked
    track decision MarketDecisionAction.buy existing = track_buy decision
    track decision MarketDecisionAction.sell existing = track_sell existing

    unfoldable pub run_market_decision_cycle_with_lifecycle :
        Lm Num S (TradeLifecycleCycleResult Num)
    unfolding find_open_record mark_existing ask_engine track
    run_market_decision_cycle_with_lifecycle = do
      found ←
          find_open_record env input.cycle.market_context.strategy.strategy_id
            input.cycle.market_context.instrument
      existing ← mark_existing input found
      decision ← ask_engine registry input.cycle.market_context
      track decision decision.action existing
