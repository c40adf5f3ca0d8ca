-- ===== src/Lifecycle/Record.antt =====
-- trade-lifecycle/types.ts: the record of a trade. trade-lifecycle-service.ts: what its methods take.
use trading_intelligence.Common.{ℕ, String, List, Option}
use trading_intelligence.Common.Time.{Timestamp}
use trading_intelligence.Domain.Orders.{OrderSide, OrderSizingMode}
use trading_intelligence.Domain.Market.{
  MarketDataSnapshot, MarketDecision, MarketDecisionAction, MarketDecisionContext,
}
use trading_intelligence.Risk.Portfolio.{PortfolioRiskDecision}
use trading_intelligence.Lifecycle.Errors.{Message}
use trading_intelligence.Lifecycle.Status.{TradeLifecycleStatus}

-- `context` of an error is not kept apart from its message.
pub record TradeLifecycleError (Num : Type 0) : Type 0 where
  pub message : Message Num
  pub occurred_at : Timestamp

pub record TradeLifecycleRecord (Num : Type 0) : Type 0 where
  pub id : String
  pub strategy_id : String
  pub strategy_version : ℕ
  pub candidate_id : Option String
  pub broker_provider : String
  pub symbol : String
  pub side : OrderSide
  pub quantity : Num
  pub sizing_mode : OrderSizingMode
  pub decision : MarketDecisionAction
  pub confidence : Num
  pub decision_reasons : List String
  pub market_data_snapshot : Option (MarketDataSnapshot Num)
  pub intelligence_summary : Option (MarketDecisionContext Num)
  pub portfolio_risk_decision : Option (PortfolioRiskDecision Num)
  pub status : TradeLifecycleStatus
  pub created_at : Timestamp
  pub updated_at : Timestamp
  pub submitted_at : Option Timestamp
  pub opened_at : Option Timestamp
  pub closed_at : Option Timestamp
  pub entry_price : Option Num
  pub stop_loss : Option Num
  pub take_profit : Option Num
  pub exit_price : Option Num
  pub broker_order_id : Option String
  pub broker_position_id : Option String
  pub exit_reason : Option (Message Num)
  pub realised_pnl : Option Num
  pub realised_pnl_percent : Option Num
  pub holding_duration_ms : Option ℕ
  pub maximum_favourable_excursion : Option Num
  pub maximum_adverse_excursion : Option Num
  pub error : Option (TradeLifecycleError Num)

pub record CreateFromDecisionInput (Num : Type 0) : Type 0 where
  pub strategy_id : String
  pub strategy_version : ℕ
  pub symbol : String
  pub side : OrderSide
  pub quantity : Num
  pub sizing_mode : OrderSizingMode
  pub candidate_id : Option String
  pub broker_provider : String
  pub stop_loss : Option Num
  pub take_profit : Option Num
  pub decision : MarketDecision Num
  pub market_data_snapshot : MarketDataSnapshot Num
  pub intelligence_summary : MarketDecisionContext Num

pub record RecordOpenedInput (Num : Type 0) : Type 0 where
  pub entry_price : Num
  pub broker_order_id : String
  pub broker_position_id : Option String
  pub opened_at : Option Timestamp

pub record RecordClosedInput (Num : Type 0) : Type 0 where
  pub exit_price : Num
  pub exit_reason : Message Num
  pub closed_at : Option Timestamp
