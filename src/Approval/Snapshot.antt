-- ===== src/Approval/Snapshot.antt =====
-- trade-approval/trade-candidate-service.ts: the run of an approved candidate, a BUY from its own
-- snapshot and a SELL by the tracked decision cycle. Inside these two the trail takes every event.
use trading_intelligence.Common.{ℕ, String, true, some, none, ◌>>=◌, return, throw, try_catch}
use trading_intelligence.Common.Numbers.{Numbers}
use trading_intelligence.Common.Time.{iso}
use trading_intelligence.Approval.Candidates.{TradeCandidate}
use trading_intelligence.Approval.Service.{Office}
use trading_intelligence.Broker.{PaperBroker}
use trading_intelligence.Cycle.Runner.{Registry, PortfolioRisk, call_broker, plain}
use trading_intelligence.Cycle.Tracked.{
  TradeLifecycleCycleInput, TradeLifecycleCycleResult, run_market_decision_cycle_with_lifecycle,
}
use trading_intelligence.Domain.Market.{MarketDecision, MarketDecisionAction}
use trading_intelligence.Domain.Orders.{OrderSide, OrderRequest, PaperPosition}
use trading_intelligence.Lifecycle.Errors.{LifecycleError, error_message}
use trading_intelligence.Lifecycle.Record.{TradeLifecycleRecord, CreateFromDecisionInput}
use trading_intelligence.Lifecycle.Service.{
  create_from_decision, record_risk_rejected, record_approved, record_execution_submitted,
  record_opened, record_execution_failed,
}
use trading_intelligence.Lifecycle.World.{Lm}
use trading_intelligence.Risk.Portfolio.{
  PortfolioRiskDecision, PortfolioRiskInput, permitted, blocked, evaluate,
}

-- What the runtime tells of the day and of its broker.
pub record ExecutionTerms (Num : Type 0) : Type 0 where
  pub portfolio_risk : PortfolioRisk Num
  pub now : ℕ
  pub broker_provider : String

module _ {Num : Type 0} where
  unfoldable pub snapshot_decision : TradeCandidate Num → MarketDecision Num
  snapshot_decision c = record {
    action = MarketDecisionAction.buy;
    confidence = c.input.confidence;
    reasoning = c.input.reasoning;
    entry_criteria_met = none;
    exit_criteria_met = none;
    validation_notes = some c.input.validation_notes;
  }

  unfoldable pub created_from_candidate :
      ExecutionTerms Num → TradeCandidate Num → CreateFromDecisionInput Num
  unfolding snapshot_decision
  created_from_candidate terms c = record {
    strategy_id = c.input.strategy_id;
    strategy_version = c.input.strategy_version;
    symbol = c.input.instrument;
    side = OrderSide.buy;
    quantity = c.input.execution.amount;
    sizing_mode = c.input.execution.sizing_mode;
    candidate_id = some c.id;
    broker_provider = terms.broker_provider;
    stop_loss = some c.input.stop_loss;
    take_profit = some c.input.take_profit;
    decision = snapshot_decision c;
    market_data_snapshot = c.input.execution.market_data_snapshot;
    intelligence_summary = c.input.execution.market_context;
  }

  unfoldable pub proposed_order : ExecutionTerms Num → TradeCandidate Num → OrderRequest Num
  proposed_order terms c = record {
    strategy_id = c.input.strategy_id;
    strategy_version = c.input.strategy_version;
    source_type = c.input.execution.market_context.strategy.source_type;
    instrument = c.input.instrument;
    side = OrderSide.buy;
    quantity = c.input.execution.amount;
    price = c.input.entry_price;
    timestamp = iso terms.now;
    take_profit_percent = none;
    stop_loss_percent = none;
  }

  unfoldable pub sell_input : ExecutionTerms Num → TradeCandidate Num → TradeLifecycleCycleInput Num
  sell_input terms c = record {
    cycle = record {
      market_context = c.input.execution.market_context;
      amount = c.input.execution.amount;
      order_sizing_mode = c.input.execution.sizing_mode;
      portfolio_risk = terms.portfolio_risk;
      timestamp = none;
    };
    market_data_snapshot = c.input.execution.market_data_snapshot;
    broker_provider = terms.broker_provider;
    candidate_id = some c.id;
    stop_loss = some c.input.stop_loss;
    take_profit = some c.input.take_profit;
  }

  unfoldable pub opened_result :
      TradeCandidate Num
      → PaperPosition Num
      → String
      → TradeLifecycleRecord Num
      → TradeLifecycleCycleResult Num
  unfolding snapshot_decision
  opened_result c position order_id opened = record {
    result = record (plain (snapshot_decision c)) {
      executed = true;
      position = some position;
      order_id = some order_id;
    };
    lifecycle_record = some opened;
  }

module _ {Num B : Type 0} ⦃num : Numbers Num⦄ (office : Office Num) (broker : PaperBroker Num B)
    (registry : Registry Num) (terms : ExecutionTerms Num) where
  unfoldable pub candidate_risk_input : TradeCandidate Num → B → PortfolioRiskInput Num
  unfolding proposed_order
  candidate_risk_input c s = record {
    account = broker.get_account s;
    open_positions = broker.get_open_positions s;
    daily_trade_count = terms.portfolio_risk.daily_trade_count;
    broker_available = terms.portfolio_risk.broker_available;
    proposed_order = proposed_order terms c;
    config = terms.portfolio_risk.config;
    sizing_mode = c.input.execution.sizing_mode;
  }

  -- The `catch` around the broker's call.
  unfoldable pub placement_failed :
      TradeLifecycleRecord Num → LifecycleError Num → Lm Num B (PaperPosition Num × String)
  unfolding record_execution_failed
  placement_failed r error = do
    failed ← record_execution_failed office.env r (error_message error)
    throw error

  unfoldable pub open_from_snapshot :
      TradeCandidate Num
      → TradeLifecycleRecord Num
      → PaperPosition Num × String
      → Lm Num B (TradeLifecycleCycleResult Num)
  unfolding record_opened opened_result
  open_from_snapshot c r (position, order_id) = do
    opened ← record_opened office.env r (record {
      entry_price = position.entry_price;
      broker_order_id = order_id;
      broker_position_id = position.broker_position_id;
      opened_at = none;
    })
    return (opened_result c position order_id opened)

  unfoldable pub buy_gated_snapshot :
      TradeCandidate Num
      → TradeLifecycleRecord Num
      → PortfolioRiskDecision Num
      → Lm Num B (TradeLifecycleCycleResult Num)
  unfolding record_risk_rejected record_approved record_execution_submitted placement_failed
      open_from_snapshot proposed_order snapshot_decision
  buy_gated_snapshot c r (blocked checks equity exposure why) = do
    rejected ← record_risk_rejected office.env r (blocked checks equity exposure why)
    return (record {
      result = record (plain (snapshot_decision c)) { blocked = some why };
      lifecycle_record = some rejected;
    })
  buy_gated_snapshot c r (permitted checks equity exposure) = do
    approved ← record_approved office.env r (permitted checks equity exposure)
    submitted ← record_execution_submitted office.env approved
    placed ←
        try_catch (call_broker (broker.place_market_order (proposed_order terms c)))
          (placement_failed submitted)
    open_from_snapshot c submitted placed

  unfoldable pub execute_approved_buy_from_snapshot :
      TradeCandidate Num → Lm Num B (TradeLifecycleCycleResult Num)
  unfolding create_from_decision created_from_candidate candidate_risk_input buy_gated_snapshot
  execute_approved_buy_from_snapshot c = do
    r ← create_from_decision office.env (created_from_candidate terms c)
    (λ w. buy_gated_snapshot c r (evaluate (candidate_risk_input c w.broker)) w)

  unfoldable pub execute_by_side :
      TradeCandidate Num → OrderSide → Lm Num B (TradeLifecycleCycleResult Num)
  unfolding execute_approved_buy_from_snapshot run_market_decision_cycle_with_lifecycle sell_input
  execute_by_side c OrderSide.buy = execute_approved_buy_from_snapshot c
  execute_by_side c OrderSide.sell =
      run_market_decision_cycle_with_lifecycle office.env broker registry (sell_input terms c)
