-- ===== src/Broker.antt =====
-- hermes-execution/paper-broker.ts and paper-broker-store.ts: the interface of a broker, and the
-- local one that keeps its positions in memory.
pub mod Local
use trading_intelligence.Common.{ℕ, String, List, Result}
use trading_intelligence.Common.Time.{Timestamp}
use trading_intelligence.Domain.Orders.{
  Account, PaperPosition, CompletedTrade, OrderRequest, OrderSide,
}

-- What a broker call may throw. `broker_error` is any error of a broker that is not the local one.
pub data BrokerError (Num : Type 0) : Type 0 where
  only_long_supported : OrderSide → BrokerError Num
  quantity_not_positive : Num → BrokerError Num
  insufficient_cash : Num → Num → BrokerError Num
  already_open : String → String → BrokerError Num
  no_open_position : String → BrokerError Num
  broker_error : String → BrokerError Num

-- `PaperBroker`, over the state `S` that the broker keeps.
pub record PaperBroker (Num S : Type 0) : Type 0 where
  pub get_account : S → Account Num
  pub get_open_positions : S → List (PaperPosition Num)
  pub get_completed_trades : S → List (CompletedTrade Num)
  pub place_market_order :
      OrderRequest Num → S → Result (BrokerError Num) (PaperPosition Num × String) × S
  pub close_position :
      String
      → Num
      → Timestamp
      → String
      → S
      → Result (BrokerError Num) (CompletedTrade Num × String) × S
