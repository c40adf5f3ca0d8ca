-- ===== src/Examples/Data.antt =====
-- Orders, positions, strategies and records in whole units of money.
use trading_intelligence.Common.{ℕ, true, false, [], ◌∷◌, some, none}
use trading_intelligence.Common.Int.{ℤ, pos}
use trading_intelligence.Common.Numbers.{integers}
use trading_intelligence.Common.Time.{iso}
use trading_intelligence.Domain.Orders.{
  OrderRequest, Account, PaperPosition, InternalStrategy, buy, units, hermes_approved,
}
use trading_intelligence.Domain.Market.{
  MarketDecision, MarketDecisionAction, MarketDecisionContext, MarketDataSnapshot,
  crypto_always_open, bullish,
}
use trading_intelligence.Risk.Portfolio.{PortfolioRiskConfig, PortfolioRiskInput}
use trading_intelligence.Risk.Strategy.{RiskEngineConfig}
use trading_intelligence.Broker.Local.{World, create}
use trading_intelligence.Lifecycle.Record.{TradeLifecycleRecord, CreateFromDecisionInput}
use trading_intelligence.Lifecycle.Service.{new_record}
use trading_intelligence.Lifecycle.World as trade

abbrev pub noon : ℕ
noon = 1_700_049_600_000

abbrev pub order : OrderRequest ℤ
order = record {
  strategy_id = "demo";
  strategy_version = 1;
  source_type = hermes_approved;
  instrument = "BTC";
  side = buy;
  quantity = pos 2;
  price = pos 100;
  timestamp = iso noon;
  take_profit_percent = some (pos 10);
  stop_loss_percent = none;
}

abbrev pub position : PaperPosition ℤ
position = record {
  position_id = "position-7";
  strategy_id = "other";
  strategy_version = 1;
  source_type = hermes_approved;
  instrument = "ETH";
  side = buy;
  quantity = pos 3;
  entry_price = pos 50;
  entry_timestamp = iso noon;
  entry_order_id = "order-7";
  take_profit_percent = none;
  stop_loss_percent = none;
  broker_position_id = some "b-7";
}

abbrev pub account : Account ℤ
account = record { cash_balance = pos 1000; starting_cash_balance = pos 1000 }

abbrev pub limits : PortfolioRiskConfig ℤ
limits = record {
  portfolio_max_open_positions = 2;
  max_daily_trades = 3;
  max_portfolio_exposure = pos 400;
}

abbrev pub looser : PortfolioRiskConfig ℤ
looser = record {
  portfolio_max_open_positions = 5;
  max_daily_trades = 3;
  max_portfolio_exposure = pos 900;
}

abbrev pub risk_input : PortfolioRiskInput ℤ
risk_input = record {
  account = account;
  open_positions = position ∷ [];
  daily_trade_count = 1;
  broker_available = true;
  proposed_order = order;
  config = limits;
  sizing_mode = units;
}

abbrev pub strategy : InternalStrategy ℤ
strategy = record {
  strategy_id = "demo";
  version = 1;
  source_type = hermes_approved;
  enabled = true;
  instrument = "BTC";
  timeframe = "1h";
  entry_rules = [];
  exit_rules = [];
  risk_rules = record { max_position_value = pos 500 };
  demo_label = none;
}

abbrev pub engine_config : RiskEngineConfig
engine_config = record {
  demo_execution_mode_enabled = false;
  strategy_max_open_positions = 2;
  order_sizing_mode = units;
}

abbrev pub fresh_account : World ℤ
fresh_account = create none (pos 1000) true

abbrev pub decision : MarketDecision ℤ
decision = record {
  action = MarketDecisionAction.buy;
  confidence = pos 80;
  reasoning = "trend" ∷ [];
  entry_criteria_met = some true;
  exit_criteria_met = none;
  validation_notes = none;
}

abbrev pub context : MarketDecisionContext ℤ
context = record {
  instrument = "BTC";
  bid = pos 99;
  ask = pos 100;
  spread = pos 1;
  mid_price = pos 99;
  timestamp = iso noon;
  position_open = false;
  strategy = record { strategy_id = "demo"; version = 1; source_type = hermes_approved };
  recent_candles = [];
  ema20 = pos 101;
  ema50 = pos 100;
  rsi14 = pos 55;
  atr14 = pos 2;
  volume = pos 10;
  daily_high = pos 105;
  daily_low = pos 95;
  volatility24h = none;
  market_session = crypto_always_open;
  trend = bullish;
}

abbrev pub snapshot : MarketDataSnapshot ℤ
snapshot = record {
  instrument = "BTC";
  timestamp = iso noon;
  candles = [];
  bid = pos 99;
  ask = pos 100;
  spread = pos 1;
  latest_price = pos 99;
  volume = none;
}

abbrev pub created_from : CreateFromDecisionInput ℤ
created_from = record {
  strategy_id = "demo";
  strategy_version = 1;
  symbol = "BTC";
  side = buy;
  quantity = pos 2;
  sizing_mode = units;
  candidate_id = some "candidate-1";
  broker_provider = "paper";
  stop_loss = some (pos 90);
  take_profit = some (pos 120);
  decision = decision;
  market_data_snapshot = snapshot;
  intelligence_summary = context;
}

abbrev pub new_trade : TradeLifecycleRecord ℤ
new_trade = new_record created_from "trade-1" (iso noon)

abbrev pub env : trade.Env
env = record { clock = λ n. noon; new_id = λ n. "trade-1"; execution_run_id = "run-1" }

abbrev pub empty_world : trade.World ℤ (Unit {0})
empty_world = record {
  store = [];
  audit = [];
  broker = tt;
  clock_reads = 0;
  ids_drawn = 0;
  decisions_asked = 0;
}
