-- ===== src/Cycle/Runner.antt =====
-- market-decision-runner.ts, with `evaluate` of market-decision-engine.ts.
use trading_intelligence.Common.{
  ℕ, suc, String, Bool, true, false, List, Option, some, none, ◌==◌, find, if◌then◌else◌,
  get_or_else, Result, ok, err, ◌>>=◌, ◌>>◌, return, throw,
}
use trading_intelligence.Common.Numbers.{Numbers}
use trading_intelligence.Common.Time.{Timestamp}
use trading_intelligence.Broker.{PaperBroker, BrokerError}
use trading_intelligence.Domain.Audit.{AuditEventType}
use trading_intelligence.Domain.Market.{MarketDecision, MarketDecisionAction, MarketDecisionContext}
use trading_intelligence.Domain.Orders.{
  OrderRequest, OrderSide, OrderSizingMode, PaperPosition, CompletedTrade,
}
use trading_intelligence.Lifecycle.Errors.{
  LifecycleError, unknown_strategy, strategy_failed, nothing_to_sell, broker_failed,
}
use trading_intelligence.Lifecycle.World.{
  World, Lm, Details, EmaRelationship, ema20_above, ema20_below, ema20_equal, decision_received,
  skipped, no_trade, for_action, closing, risk_passed, risk_failed, record_audit,
}
use trading_intelligence.Risk.Checks.{CheckDetail}
use trading_intelligence.Risk.Portfolio.{
  PortfolioRiskConfig, PortfolioRiskInput, PortfolioRiskDecision, permitted, blocked, evaluate,
}

-- The registered strategies: the n-th decision asked for may depend on n, and may fail.
abbrev pub Registry : Type 0 → Type 0
Registry Num = String → Option (ℕ → MarketDecisionContext Num → Result String (MarketDecision Num))

pub record PortfolioRisk (Num : Type 0) : Type 0 where
  pub config : PortfolioRiskConfig Num
  pub daily_trade_count : ℕ
  pub broker_available : Bool

pub record MarketDecisionCycleInput (Num : Type 0) : Type 0 where
  pub market_context : MarketDecisionContext Num
  pub amount : Num
  pub order_sizing_mode : OrderSizingMode
  pub portfolio_risk : PortfolioRisk Num
  pub timestamp : Option Timestamp

pub record MarketDecisionCycleResult (Num : Type 0) : Type 0 where
  pub decision : MarketDecision Num
  pub executed : Bool
  pub position : Option (PaperPosition Num)
  pub trade : Option (CompletedTrade Num)
  pub order_id : Option String
  pub blocked : Option (List (CheckDetail Num))

module _ {Num : Type 0} where
  abbrev pub asked :
      Result String (MarketDecision Num) → Result (LifecycleError Num) (MarketDecision Num)
  asked (ok decision) = ok decision
  asked (err e) = err (strategy_failed e)

  -- `MarketDecisionEngine.evaluate`, at the given number of decisions asked for before.
  unfoldable pub decide :
      Registry Num
      → MarketDecisionContext Num
      → ℕ
      → Result (LifecycleError Num) (MarketDecision Num)
  decide registry context n = elim (registry context.strategy.strategy_id) [
    | none ↦ err (unknown_strategy context.strategy.strategy_id)
    | some strategy ↦ asked (strategy n context)
  ]

  unfoldable pub cycle_time : MarketDecisionCycleInput Num → Timestamp
  cycle_time input = get_or_else input.timestamp input.market_context.timestamp

  -- The order of a BUY, without percentages.
  unfoldable pub buy_order : MarketDecisionCycleInput Num → OrderRequest Num
  unfolding cycle_time
  buy_order input = record {
    strategy_id = input.market_context.strategy.strategy_id;
    strategy_version = input.market_context.strategy.version;
    source_type = input.market_context.strategy.source_type;
    instrument = input.market_context.instrument;
    side = OrderSide.buy;
    quantity = input.amount;
    price = input.market_context.ask;
    timestamp = cycle_time input;
    take_profit_percent = none;
    stop_loss_percent = none;
  }

  abbrev pub plain : MarketDecision Num → MarketDecisionCycleResult Num
  plain decision = record {
    decision = decision;
    executed = false;
    position = none;
    trade = none;
    order_id = none;
    blocked = none;
  }

module _ {Num : Type 0} ⦃num : Numbers Num⦄ where
  unfoldable pub ema_relationship : MarketDecisionContext Num → EmaRelationship
  ema_relationship context =
      if num.lt context.ema50 context.ema20
      then ema20_above
      else if num.lt context.ema20 context.ema50
      then ema20_below
      else ema20_equal

module _ {Num S : Type 0} where
  unfoldable pub cycle_event :
      String → MarketDecisionCycleInput Num → AuditEventType → Details Num → Lm Num S (Unit {0})
  unfolding cycle_time
  cycle_event execution_run_id input event_type details = record_audit (record {
    timestamp = cycle_time input;
    event_type = event_type;
    execution_run_id = execution_run_id;
    strategy_id = some input.market_context.strategy.strategy_id;
    strategy_version = none;
    source_type = none;
    instrument = some input.market_context.instrument;
    details = details;
  })

  -- Only the first event of a cycle names the strategy's version and source.
  unfoldable pub received_event :
      String → MarketDecisionCycleInput Num → Details Num → Lm Num S (Unit {0})
  unfolding cycle_time
  received_event execution_run_id input details = record_audit (record {
    timestamp = cycle_time input;
    event_type = AuditEventType.market_decision_received;
    execution_run_id = execution_run_id;
    strategy_id = some input.market_context.strategy.strategy_id;
    strategy_version = some input.market_context.strategy.version;
    source_type = some input.market_context.strategy.source_type;
    instrument = some input.market_context.instrument;
    details = details;
  })

  -- A call of the broker; what it throws leaves the cycle.
  abbrev pub broker_result :
      {A : Type 0}
      → World Num S
      → Result (BrokerError Num) A × S
      → Result (LifecycleError Num) A × World Num S
  broker_result w (ok a, s) = (ok a, record w { broker = s })
  broker_result w (err e, s) = (err (broker_failed e), record w { broker = s })

  abbrev pub call_broker : {A : Type 0} → (S → Result (BrokerError Num) A × S) → Lm Num S A
  call_broker f w = broker_result w (f w.broker)

  unfoldable pub ask_engine :
      Registry Num → MarketDecisionContext Num → Lm Num S (MarketDecision Num)
  unfolding decide
  ask_engine registry context w = (
    decide registry context w.decisions_asked,
    record w { decisions_asked = suc w.decisions_asked },
  )

module _ {Num S : Type 0} (broker : PaperBroker Num S) where
  unfoldable pub risk_input_of : MarketDecisionCycleInput Num → S → PortfolioRiskInput Num
  unfolding buy_order
  risk_input_of input s = record {
    account = broker.get_account s;
    open_positions = broker.get_open_positions s;
    daily_trade_count = input.portfolio_risk.daily_trade_count;
    broker_available = input.portfolio_risk.broker_available;
    proposed_order = buy_order input;
    config = input.portfolio_risk.config;
    sizing_mode = input.order_sizing_mode;
  }

  unfoldable pub position_on : String → S → Option (PaperPosition Num)
  position_on instrument s = find (λ p. p.instrument == instrument) (broker.get_open_positions s)

module _ {Num S : Type 0} ⦃num : Numbers Num⦄ (broker : PaperBroker Num S) (run_id : String) where
  -- What follows the risk check of a BUY.
  unfoldable pub after_risk :
      MarketDecisionCycleInput Num
      → MarketDecision Num
      → PortfolioRiskDecision Num
      → Lm Num S (MarketDecisionCycleResult Num)
  unfolding cycle_event buy_order
  after_risk input decision (blocked checks equity exposure why) = do
    cycle_event run_id input AuditEventType.risk_check_failed
        (risk_failed checks equity exposure why)
    cycle_event run_id input AuditEventType.execution_skipped (no_trade decision.action why)
    return (record (plain decision) { blocked = some why })
  after_risk input decision (permitted checks equity exposure) = do
    cycle_event run_id input AuditEventType.risk_check_passed (risk_passed checks equity exposure)
    cycle_event run_id input AuditEventType.execution_triggered (for_action decision.action)
    (position, order_id) ← call_broker (broker.place_market_order (buy_order input))
    return (record (plain decision) {
      executed = true;
      position = some position;
      order_id = some order_id;
    })

  unfoldable pub close_found :
      MarketDecisionCycleInput Num
      → MarketDecision Num
      → Option (PaperPosition Num)
      → Lm Num S (MarketDecisionCycleResult Num)
  unfolding cycle_event cycle_time
  close_found input decision none = throw (nothing_to_sell input.market_context.instrument)
  close_found input decision (some p) = do
    cycle_event run_id input AuditEventType.execution_triggered
        (closing decision.action p.position_id)
    (trade, order_id) ← call_broker (
        broker.close_position p.position_id input.market_context.bid (cycle_time input)
          "market-decision-sell")
    return
        (record (plain decision) { executed = true; trade = some trade; order_id = some order_id })

  unfoldable pub act_on :
      MarketDecisionCycleInput Num
      → MarketDecision Num
      → MarketDecisionAction
      → Lm Num S (MarketDecisionCycleResult Num)
  unfolding cycle_event risk_input_of after_risk close_found position_on
  act_on input decision MarketDecisionAction.hold = do
    cycle_event run_id input AuditEventType.execution_skipped
        (skipped decision.action decision.reasoning)
    return (plain decision)
  act_on input decision MarketDecisionAction.buy = do
    cycle_event run_id input AuditEventType.risk_check_started (for_action decision.action)
    (λ w. after_risk input decision (evaluate (risk_input_of broker input w.broker)) w)
  act_on input decision MarketDecisionAction.sell = λ w.
      close_found input decision (position_on broker input.market_context.instrument w.broker) w

  unfoldable pub run_market_decision_cycle :
      Registry Num → MarketDecisionCycleInput Num → Lm Num S (MarketDecisionCycleResult Num)
  unfolding ask_engine received_event ema_relationship act_on
  run_market_decision_cycle registry input = do
    decision ← ask_engine registry input.market_context
    received_event run_id input (
        decision_received decision.action decision.confidence decision.reasoning
          input.market_context.trend input.market_context.rsi14
          (ema_relationship input.market_context))
    act_on input decision decision.action
