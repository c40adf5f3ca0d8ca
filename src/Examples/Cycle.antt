-- ===== src/Examples/Cycle.antt =====
-- A decision cycle that buys, with and without a record of the trade.
use trading_intelligence.Common.{true, ok, some, none, []}
use trading_intelligence.Common.Int.{ℤ, pos}
use trading_intelligence.Common.Numbers.{integers}
use trading_intelligence.Broker.Local as local
use trading_intelligence.Broker.Local.Interface.{local_paper_broker}
use trading_intelligence.Domain.Orders.{units}
use trading_intelligence.Lifecycle.Service.Stored.{Returns}
use trading_intelligence.Lifecycle.World as trade
use trading_intelligence.Cycle.Guard.{Endings, run_market_decision_cycle-Endings}
use trading_intelligence.Cycle.Runner.{
  Registry, MarketDecisionCycleInput, decide, run_market_decision_cycle,
}
use trading_intelligence.Cycle.Tracked.{
  TradeLifecycleCycleInput, run_market_decision_cycle_with_lifecycle,
}
use trading_intelligence.Cycle.Tracked.Outcome.{
  Tracks, run_market_decision_cycle_with_lifecycle-Tracks,
}
use trading_intelligence.Examples.Data.{decision, context, snapshot, limits, env, fresh_account}

abbrev pub registry : Registry ℤ
registry id = some (λ n seen. ok decision)

abbrev cycle_input : MarketDecisionCycleInput ℤ
cycle_input = record {
  market_context = context;
  amount = pos 2;
  order_sizing_mode = units;
  portfolio_risk = record { config = limits; daily_trade_count = 1; broker_available = true };
  timestamp = none;
}

abbrev tracked_input : TradeLifecycleCycleInput ℤ
tracked_input = record {
  cycle = cycle_input;
  market_data_snapshot = snapshot;
  broker_provider = "paper";
  candidate_id = some "candidate-1";
  stop_loss = some (pos 90);
  take_profit = some (pos 120);
}

abbrev pub before : trade.World ℤ (local.World ℤ)
before = record {
  store = [];
  audit = [];
  broker = fresh_account;
  clock_reads = 0;
  ids_drawn = 0;
  decisions_asked = 0;
}

run_market_decision_cycle-Endings_example :
    Endings local_paper_broker cycle_input fresh_account
      (decide registry context 0)
      (run_market_decision_cycle local_paper_broker "run-1" registry cycle_input before)
run_market_decision_cycle-Endings_example =
    run_market_decision_cycle-Endings local_paper_broker "run-1" registry cycle_input before

run_market_decision_cycle_with_lifecycle-Tracks_example :
    Returns Tracks (
      run_market_decision_cycle_with_lifecycle env local_paper_broker registry tracked_input before)
run_market_decision_cycle_with_lifecycle-Tracks_example =
    run_market_decision_cycle_with_lifecycle-Tracks env tracked_input local_paper_broker registry
      before
