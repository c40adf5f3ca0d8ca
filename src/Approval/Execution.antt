-- ===== src/Approval/Execution.antt =====
-- trade-approval/trade-candidate-service.ts: `executeApprovedTradeCandidate`.
pub mod Backing
pub mod Outcome
use trading_intelligence.Common.{
  ℕ, String, Bool, true, false, List, Option, some, none, Result, ok, err, if◌then◌else◌, ◌>>=◌,
  ◌>>◌, return, throw, try_catch, map,
}
use trading_intelligence.Common.Numbers.{Numbers}
use trading_intelligence.Common.Time.{iso}
use trading_intelligence.Approval.Candidates.{
  TradeCandidate, TradeCandidateTransitionPatch, is_status,
}
use trading_intelligence.Approval.Candidates
use trading_intelligence.Approval.Service.{
  Desk, Dm, Office, to_status, is_expired, record_about, transition_candidate, expire_candidate,
}
use trading_intelligence.Broker.{PaperBroker, BrokerError}
use trading_intelligence.Cycle.Runner.{
  Registry, PortfolioRisk, MarketDecisionCycleResult, call_broker, plain,
}
use trading_intelligence.Cycle.Tracked.{
  TradeLifecycleCycleInput, TradeLifecycleCycleResult, run_market_decision_cycle_with_lifecycle,
}
use trading_intelligence.Domain.Audit.{AuditEventType}
use trading_intelligence.Domain.Market.{MarketDecision, MarketDecisionAction}
use trading_intelligence.Domain.Orders.{OrderSide, OrderRequest, PaperPosition}
use trading_intelligence.Lifecycle.Errors.{
  LifecycleError, Message, text, error_message, blocked_because,
}
use trading_intelligence.Lifecycle.Record.{TradeLifecycleRecord, CreateFromDecisionInput}
use trading_intelligence.Lifecycle.Service.{
  create_from_decision, record_risk_rejected, record_approved, record_execution_submitted,
  record_opened, record_execution_failed,
}
use trading_intelligence.Lifecycle.World.{World, Lm, failed_because, executed_as}
use trading_intelligence.Risk.Checks.{CheckDetail}
use trading_intelligence.Risk.Portfolio.{
  PortfolioRiskDecision, PortfolioRiskInput, permitted, blocked, evaluate,
}
use trading_intelligence.Approval.Snapshot.{ExecutionTerms, execute_by_side}

pub data ExecutionOutcome (Num : Type 0) : Type 0 where
  executed_outcome lapsed_outcome : TradeCandidate Num → ExecutionOutcome Num
  execution_failed_outcome : TradeCandidate Num → Message Num → ExecutionOutcome Num
  execution_already_handled : ExecutionOutcome Num

abbrev pub back :
    {Num B A : Type 0}
    → Desk Num B
    → Result (LifecycleError Num) A × World Num B
    → Result (LifecycleError Num) A × Desk Num B
back desk (answer, w) = (answer, record desk { world = w })

abbrev pub in_world : {Num B A : Type 0} → Lm Num B A → Dm Num B A
in_world m desk = back desk (m desk.world)

module _ {Num : Type 0} where
  abbrev pub not_executed_reason : Option (List (CheckDetail Num)) → Message Num
  not_executed_reason none =
      text "Execution did not occur (unexpected: decision was no longer executable)."
  not_executed_reason (some why) = blocked_because why

  abbrev pub record_id : Option (TradeLifecycleRecord Num) → Option String
  record_id none = none
  record_id (some r) = some r.id

  unfoldable pub execution_patch :
      ExecutionTerms Num → TradeLifecycleCycleResult Num → TradeCandidateTransitionPatch
  execution_patch terms result = record (to_status Candidates.executed) {
    executed_at = some (iso terms.now);
    lifecycle_record_id = record_id result.lifecycle_record;
    broker_order_id = result.result.order_id;
  }

module _ {Num B : Type 0} ⦃num : Numbers Num⦄ (office : Office Num) (broker : PaperBroker Num B)
    (registry : Registry Num) (terms : ExecutionTerms Num) where
  unfoldable pub after_failure :
      Message Num → Option (TradeCandidate Num) → Dm Num B (ExecutionOutcome Num)
  unfolding record_about
  after_failure reason none = return execution_already_handled
  after_failure reason (some c) = do
    record_about office terms.now AuditEventType.trade_candidate_execution_failed c
        (failed_because reason)
    return (execution_failed_outcome c reason)

  unfoldable pub after_success : Option (TradeCandidate Num) → Dm Num B (ExecutionOutcome Num)
  unfolding record_about
  after_success none = return execution_already_handled
  after_success (some c) = do
    record_about office terms.now AuditEventType.trade_candidate_executed c
        (executed_as c.broker_order_id c.lifecycle_record_id)
    return (executed_outcome c)

  abbrev pub failure_patch : Message Num → TradeCandidateTransitionPatch
  failure_patch reason = record (to_status Candidates.failed) {
    failure_reason = some (office.message_text reason);
  }

  -- What follows a run that has not thrown.
  unfoldable pub settle_execution :
      TradeCandidate Num → TradeLifecycleCycleResult Num → Bool → Dm Num B (ExecutionOutcome Num)
  unfolding transition_candidate after_failure after_success execution_patch
  settle_execution c result false = do
    let reason = not_executed_reason result.result.blocked
    failed ← transition_candidate office c.id Candidates.approved (failure_patch reason)
    after_failure reason failed
  settle_execution c result true = do
    executed ← transition_candidate office c.id Candidates.approved (execution_patch terms result)
    after_success executed

  unfoldable pub try_execution : TradeCandidate Num → Dm Num B (ExecutionOutcome Num)
  unfolding execute_by_side settle_execution
  try_execution c = do
    result ← in_world (execute_by_side office broker registry terms c c.input.side)
    settle_execution c result result.result.executed

  -- The `catch` around it all; its event names the candidate that was given.
  abbrev pub caught_outcome : Message Num → Option (TradeCandidate Num) → ExecutionOutcome Num
  caught_outcome reason none = execution_already_handled
  caught_outcome reason (some failed) = execution_failed_outcome failed reason

  unfoldable pub execution_thrown :
      TradeCandidate Num → LifecycleError Num → Dm Num B (ExecutionOutcome Num)
  unfolding transition_candidate record_about
  execution_thrown c error = do
    let reason = error_message error
    failed ← transition_candidate office c.id Candidates.approved (failure_patch reason)
    record_about office terms.now AuditEventType.trade_candidate_execution_failed c
        (failed_because reason)
    return (caught_outcome reason failed)

  abbrev pub lapse_result : Option (TradeCandidate Num) → ExecutionOutcome Num
  lapse_result none = execution_already_handled
  lapse_result (some c) = lapsed_outcome c

  unfoldable pub execute_approved : TradeCandidate Num → Bool → Dm Num B (ExecutionOutcome Num)
  unfolding expire_candidate try_execution execution_thrown
  execute_approved c true = do
    gone ← expire_candidate office terms.now "expired-before-execution" c.id Candidates.approved
    return (lapse_result gone)
  execute_approved c false = try_catch (try_execution c) (execution_thrown c)

  unfoldable pub execute_approved_trade_candidate :
      TradeCandidate Num → Dm Num B (ExecutionOutcome Num)
  unfolding execute_approved is_status is_expired
  execute_approved_trade_candidate c =
      if is_status c.status Candidates.approved
      then execute_approved c (is_expired c terms.now)
      else return execution_already_handled
