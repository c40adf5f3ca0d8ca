-- ===== src/Approval/Execution/Backing.antt =====
-- trade-approval/trade-candidate-service.ts: what a run of an approved candidate leaves in the store.
use trading_intelligence.Common.{
  String, true, ◌≡◌, refl, sym, subst, some, none, Result, ok, err, try_catch, return,
}
use trading_intelligence.Common.Dict.{get}
use trading_intelligence.Common.Numbers.{Numbers}
use trading_intelligence.Approval.Candidates.{TradeCandidate}
use trading_intelligence.Approval.Service.{Office}
use trading_intelligence.Approval.Snapshot.{
  ExecutionTerms, created_from_candidate, proposed_order, opened_result, placement_failed,
  open_from_snapshot, buy_gated_snapshot, execute_approved_buy_from_snapshot, execute_by_side,
}
use trading_intelligence.Broker.{PaperBroker}
use trading_intelligence.Cycle.Runner.{Registry, call_broker}
use trading_intelligence.Cycle.Tracked.{TradeLifecycleCycleResult}
use trading_intelligence.Cycle.Tracked.Outcome.{Returns-any}
use trading_intelligence.Domain.Orders.{OrderSide, PaperPosition}
use trading_intelligence.Lifecycle.Errors.{LifecycleError}
use trading_intelligence.Lifecycle.Record.{TradeLifecycleRecord}
use trading_intelligence.Lifecycle.Service.{
  create_from_decision, record_risk_rejected, record_approved, record_execution_submitted,
}
use trading_intelligence.Lifecycle.Service.Calls.{call, target, opens}
use trading_intelligence.Lifecycle.Service.Stored.{Returns, Returns-then, call-Moved, Moved}
use trading_intelligence.Lifecycle.Status.{open_status}
use trading_intelligence.Lifecycle.World.{World}
use trading_intelligence.Risk.Portfolio.{PortfolioRiskDecision, permitted, blocked}

module _ {Num B : Type 0} where
  -- A BUY that was executed has an OPEN record in the store.
  abbrev pub IsBacking : OrderSide → TradeLifecycleCycleResult Num → World Num B → Type 0
  IsBacking OrderSide.sell result w = Unit {0}
  IsBacking OrderSide.buy result w =
      (r : TradeLifecycleRecord Num) × (result.lifecycle_record ≡ some r)
      × (get r.id w.store ≡ some r)
      × (r.status ≡ open_status)

  abbrev pub Backs : OrderSide → TradeLifecycleCycleResult Num → World Num B → Type 0
  Backs side result w = result.result.executed ≡ true → IsBacking side result w

module _ {Num B : Type 0} ⦃num : Numbers Num⦄ (office : Office Num) (broker : PaperBroker Num B)
    (registry : Registry Num) (terms : ExecutionTerms Num) (c : TradeCandidate Num) where
  open_from_snapshot-Backs :
      (r : TradeLifecycleRecord Num) (placed : PaperPosition Num × String) (w : World Num B)
      → Returns (Backs OrderSide.buy) (open_from_snapshot office broker registry terms c r placed w)
  unfolding open_from_snapshot opened_result call target
  open_from_snapshot-Backs r (position, order_id) w =
      Returns-then (Moved r open_status) (Backs OrderSide.buy)
        (call office.env r (
          opens (record {
            entry_price = position.entry_price;
            broker_order_id = order_id;
            broker_position_id = position.broker_position_id;
            opened_at = none;
          })))
        (λ opened. return (opened_result c position order_id opened)) w
        (call-Moved office.env r
          (opens (record {
            entry_price = position.entry_price;
            broker_order_id = order_id;
            broker_position_id = position.broker_position_id;
            opened_at = none;
          }))
          w)
        λ r' w' (same, is_open, at) executed.
          (r', refl, subst (λ k. get k w'.store ≡ some r') (sym same) at, is_open)

  buy_gated_snapshot-Backs :
      (r : TradeLifecycleRecord Num) (decision : PortfolioRiskDecision Num) (w : World Num B)
      → Returns
          (Backs OrderSide.buy)
          (buy_gated_snapshot office broker registry terms c r decision w)
  unfolding buy_gated_snapshot
  buy_gated_snapshot-Backs r (blocked checks equity exposure why) w =
      Returns-any (Backs OrderSide.buy)
        (record_risk_rejected office.env r (blocked checks equity exposure why)) _ w
        λ rejected w' executed. absurd cc
  buy_gated_snapshot-Backs r (permitted checks equity exposure) w =
      Returns-any (Backs OrderSide.buy)
        (record_approved office.env r (permitted checks equity exposure)) _ w
        λ approved w₁.
          Returns-any (Backs OrderSide.buy) (record_execution_submitted office.env approved) _ w₁
            λ submitted w₂.
              Returns-any (Backs OrderSide.buy)
                (try_catch (call_broker (broker.place_market_order (proposed_order terms c)))
                  (placement_failed office broker registry terms submitted))
                _ w₂ λ placed w₃. open_from_snapshot-Backs submitted placed w₃

  anything_sold :
      (x : Result (LifecycleError Num) (TradeLifecycleCycleResult Num) × World Num B)
      → Returns (Backs OrderSide.sell) x
  anything_sold (ok result, w) = λ executed. tt
  anything_sold (err e, w) = tt

  pub execute_by_side-Backs :
      (side : OrderSide) (w : World Num B)
      → Returns (Backs side) (execute_by_side office broker registry terms c side w)
  unfolding execute_by_side execute_approved_buy_from_snapshot
  execute_by_side-Backs OrderSide.buy w =
      Returns-any (Backs OrderSide.buy)
        (create_from_decision office.env (created_from_candidate terms c)) _ w
        λ r w'. buy_gated_snapshot-Backs r _ w'
  execute_by_side-Backs OrderSide.sell w =
      anything_sold (execute_by_side office broker registry terms c OrderSide.sell w)
