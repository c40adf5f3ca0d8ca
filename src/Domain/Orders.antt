-- ===== src/Domain/Orders.antt =====
-- hermes-execution/types.ts: strategies, orders, positions, trades and risk checks; order-sizing.ts.
-- `Num` stands for `number` where a value is a price, an amount or a percentage.
use trading_intelligence.Common.{ℕ, String, Bool, List, Option}
use trading_intelligence.Common.Numbers.{Numbers}
use trading_intelligence.Common.Time.{Timestamp}

pub data StrategySourceType : Type 0 where
  hermes_approved demo_only : StrategySourceType

pub data OrderSide : Type 0 where
  buy sell : OrderSide

pub data OrderSizingMode : Type 0 where
  units notional : OrderSizingMode

pub record RiskRules (Num : Type 0) : Type 0 where
  pub max_position_value : Num

pub record OrderRequest (Num : Type 0) : Type 0 where
  pub strategy_id : String
  pub strategy_version : ℕ
  pub source_type : StrategySourceType
  pub instrument : String
  pub side : OrderSide
  pub quantity : Num
  pub price : Num
  pub timestamp : Timestamp
  pub take_profit_percent : Option Num
  pub stop_loss_percent : Option Num

pub record Account (Num : Type 0) : Type 0 where
  pub cash_balance : Num
  pub starting_cash_balance : Num

pub record PaperPosition (Num : Type 0) : Type 0 where
  pub position_id : String
  pub strategy_id : String
  pub strategy_version : ℕ
  pub source_type : StrategySourceType
  pub instrument : String
  pub side : OrderSide
  pub quantity : Num
  pub entry_price : Num
  pub entry_timestamp : Timestamp
  pub entry_order_id : String
  pub take_profit_percent : Option Num
  pub stop_loss_percent : Option Num
  pub broker_position_id : Option String

pub record CompletedTrade (Num : Type 0) : Type 0 where
  pub trade_id : String
  pub position_id : String
  pub strategy_id : String
  pub strategy_version : ℕ
  pub source_type : StrategySourceType
  pub instrument : String
  pub side : OrderSide
  pub quantity : Num
  pub entry_price : Num
  pub entry_timestamp : Timestamp
  pub entry_order_id : String
  pub exit_price : Num
  pub exit_timestamp : Timestamp
  pub exit_order_id : String
  pub realised_pnl : Num
  pub close_reason : String

module _ {Num : Type 0} ⦃num : Numbers Num⦄ where
  unfoldable pub calculate_notional : OrderSizingMode → Num → Num → Num
  calculate_notional units quantity price = num.mul quantity price
  calculate_notional notional quantity price = quantity

pub data EntryRule (Num : Type 0) : Type 0 where
  crosses_above_ma : ℕ → EntryRule Num

pub data ExitRule (Num : Type 0) : Type 0 where
  take_profit : Num → ExitRule Num
  stop_loss : Num → ExitRule Num
  crosses_below_ma : ℕ → ExitRule Num

pub record InternalStrategy (Num : Type 0) : Type 0 where
  pub strategy_id : String
  pub version : ℕ
  pub source_type : StrategySourceType
  pub enabled : Bool
  pub instrument : String
  pub timeframe : String
  pub entry_rules : List (EntryRule Num)
  pub exit_rules : List (ExitRule Num)
  pub risk_rules : RiskRules Num
  pub demo_label : Option String
