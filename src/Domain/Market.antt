-- ===== src/Domain/Market.antt =====
-- hermes-execution/market-decision-engine.ts, market-data/market-data-provider.ts and the session
-- and trend names: what a decision is made from, and the decision.
use trading_intelligence.Common.{ℕ, String, Bool, List, Option}
use trading_intelligence.Common.Time.{Timestamp}
use trading_intelligence.Domain.Orders.{StrategySourceType}

pub record Candle (Num : Type 0) : Type 0 where
  pub symbol : String
  pub timestamp : Timestamp
  pub open_price : Num
  pub high : Num
  pub low : Num
  pub close : Num
  pub volume : Option Num

pub data MarketSession : Type 0 where
  asia europe us crypto_always_open : MarketSession

pub data TrendClassification : Type 0 where
  bullish bearish sideways : TrendClassification

pub data MarketDecisionAction : Type 0 where
  buy sell hold : MarketDecisionAction

pub record DecisionStrategyMetadata : Type 0 where
  pub strategy_id : String
  pub version : ℕ
  pub source_type : StrategySourceType

pub record MarketDecisionContext (Num : Type 0) : Type 0 where
  pub instrument : String
  pub bid : Num
  pub ask : Num
  pub spread : Num
  pub mid_price : Num
  pub timestamp : Timestamp
  pub position_open : Bool
  pub strategy : DecisionStrategyMetadata
  pub recent_candles : List (Candle Num)
  pub ema20 : Num
  pub ema50 : Num
  pub rsi14 : Num
  pub atr14 : Num
  pub volume : Num
  pub daily_high : Num
  pub daily_low : Num
  pub volatility24h : Option Num
  pub market_session : MarketSession
  pub trend : TrendClassification

pub record MarketDecision (Num : Type 0) : Type 0 where
  pub action : MarketDecisionAction
  pub confidence : Num
  pub reasoning : List String
  pub entry_criteria_met : Option Bool
  pub exit_criteria_met : Option Bool
  pub validation_notes : Option (List String)

pub record MarketDataSnapshot (Num : Type 0) : Type 0 where
  pub instrument : String
  pub timestamp : Timestamp
  pub candles : List (Candle Num)
  pub bid : Num
  pub ask : Num
  pub spread : Num
  pub latest_price : Num
  pub volume : Option Num

-- runtime/exit-monitor.ts
pub data ExitTrigger : Type 0 where
  kill_switch stop_loss take_profit strategy_disabled max_holding_duration opposing_signal :
      ExitTrigger
