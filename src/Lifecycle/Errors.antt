-- ===== src/Lifecycle/Errors.antt =====
-- The errors that the lifecycle code throws, with the values that their messages name, and the
-- messages that it stores.
use trading_intelligence.Common.{ℕ, String, List, Option}
use trading_intelligence.Approval.Candidates.{TradeCandidateStatus}
use trading_intelligence.Broker.{BrokerError}
use trading_intelligence.Risk.Checks.{CheckDetail}
use trading_intelligence.Lifecycle.Status.{TradeLifecycleStatus}

pub data LifecycleError (Num : Type 0) : Type 0 where
  invalid_transition : TradeLifecycleStatus → TradeLifecycleStatus → LifecycleError Num
  already_exists unknown_record : String → LifecycleError Num
  broker_position_clash strategy_instrument_clash : String → LifecycleError Num
  never_opened missing_entry_price missing_opened_at unparseable_opened_at :
      String → LifecycleError Num
  not_live : String → TradeLifecycleStatus → LifecycleError Num
  not_finite not_positive : String → Num → LifecycleError Num
  invalid_timestamp : String → LifecycleError Num
  negative_duration : LifecycleError Num
  unknown_strategy nothing_to_sell no_position_returned no_trade_returned :
      String → LifecycleError Num
  strategy_failed : String → LifecycleError Num
  does_not_prove_opening : String → TradeLifecycleStatus → LifecycleError Num
  missing_opening_evidence : String → LifecycleError Num
  invalid_candidate_transition : TradeCandidateStatus → TradeCandidateStatus → LifecycleError Num
  audit_failed : String → LifecycleError Num
  broker_failed : BrokerError Num → LifecycleError Num

-- runtime/lifecycle-recovery.ts: why a record is abandoned or left for review.
pub data RecoveryReason : Type 0 where
  candidate_executed : String → TradeLifecycleStatus → RecoveryReason
  positions_unreadable : TradeLifecycleStatus → String → RecoveryReason
  unexpected_positions : ℕ → String → TradeLifecycleStatus → RecoveryReason
  unexpected_order : String → TradeLifecycleStatus → RecoveryReason
  order_lookup_failed : TradeLifecycleStatus → String → RecoveryReason
  never_submitted : TradeLifecycleStatus → String → RecoveryReason
  no_portfolio_read portfolio_read_failed no_position : String → String → RecoveryReason
  many_positions : ℕ → String → String → RecoveryReason
  claimed_by : String → String → RecoveryReason
  missing_entry_data : String → String → String → RecoveryReason

-- A text that is stored: a literal, or the message of an error (`toErrorMessage`).
pub data Message (Num : Type 0) : Type 0 where
  text : String → Message Num
  error_message : LifecycleError Num → Message Num
  no_broker_position : String → Option String → String → Message Num
  confirmed_but_not_stored : Num → Message Num → Message Num
  confirmed_but_failed : Message Num → Message Num
  recovery : RecoveryReason → Message Num
  approval_not_stored approval_not_audited : Message Num → Message Num
  blocked_because : List (CheckDetail Num) → Message Num

-- runtime/position-reconciliation.ts: why the broker's positions and the records are not reconciled.
pub data ReconciliationReason (Num : Type 0) : Type 0 where
  many_active : List (String × TradeLifecycleStatus) → String → String → ReconciliationReason Num
  not_resolvable : String → String → TradeLifecycleStatus → ReconciliationReason Num
  instrument_unresolved portfolio_unread : String → String → ReconciliationReason Num
  many_live : ℕ → String → ℕ → ReconciliationReason Num
  many_records : List (String × TradeLifecycleStatus) → String → String → ReconciliationReason Num
  no_entry_data not_adoptable : String → String → ReconciliationReason Num
  already_resolved :
      String → String → String → String → TradeLifecycleStatus → ReconciliationReason Num
  duplicate_adoption : String → String → LifecycleError Num → ReconciliationReason Num
