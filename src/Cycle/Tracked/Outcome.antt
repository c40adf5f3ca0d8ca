-- ===== src/Cycle/Tracked/Outcome.antt =====
-- What the tracked cycle leaves in the store when it returns a record.
use trading_intelligence.Common.{
  false, String, ◌≡◌, refl, sym, subst, Option, some, none, Result, ok, err, M, get_or_else, ◌>>=◌,
  return, try_catch,
}
use trading_intelligence.Common.Dict.{get}
use trading_intelligence.Common.Numbers.{Numbers}
use trading_intelligence.Broker.{PaperBroker, BrokerError}
use trading_intelligence.Domain.Market.{MarketDecision, MarketDecisionAction}
use trading_intelligence.Domain.Orders.{PaperPosition, CompletedTrade}
use trading_intelligence.Lifecycle.Errors.{LifecycleError, text}
use trading_intelligence.Lifecycle.Record.{
  TradeLifecycleRecord, RecordOpenedInput, RecordClosedInput,
}
use trading_intelligence.Lifecycle.Service.{
  create_from_decision, record_approved, record_execution_submitted, record_close_requested,
  find_open_record,
}
use trading_intelligence.Lifecycle.Service.Calls.{call, target, risk_rejects, opens, closes}
use trading_intelligence.Lifecycle.Service.Stored.{
  Returns, Returns-both, Returns-then, Moved, call-Moved,
}
use trading_intelligence.Lifecycle.Service.Filled.{
  HasEntry, HasExit, record_opened-HasEntry, record_closed-HasExit, record_risk_rejected-decision,
}
use trading_intelligence.Lifecycle.Status.{risk_rejected, open_status, closed}
use trading_intelligence.Lifecycle.World.{World, Env}
use trading_intelligence.Risk.Portfolio.{PortfolioRiskDecision, permitted, blocked, is_permitted}
use trading_intelligence.Cycle.Runner.{
  Registry, MarketDecisionCycleInput, MarketDecisionCycleResult, decide, buy_order, cycle_time,
  after_risk, close_found, act_on, ask_engine, received_event, cycle_event,
  run_market_decision_cycle,
}
use trading_intelligence.Cycle.Tracked.{
  TradeLifecycleCycleInput, TradeLifecycleCycleResult, untracked, mark_existing, created_for,
  buy_gated, track_buy, track_sell, track, open_tracked, close_tracked, buy_failed, sell_failed,
  run_market_decision_cycle_with_lifecycle,
}

module _ {Num S : Type 0} ⦃num : Numbers Num⦄ (broker : PaperBroker Num S) (run_id : String) where
  -- The plain cycle does not touch the store.
  after_risk-store :
      (input : MarketDecisionCycleInput Num) (d : MarketDecision Num)
      (r : PortfolioRiskDecision Num) (w : World Num S)
      → (after_risk broker run_id input d r w).1.store ≡ w.store
  unfolding after_risk cycle_event
  after_risk-store input d (blocked checks equity exposure why) w = refl
  after_risk-store input d (permitted checks equity exposure) w =
      go (broker.place_market_order (buy_order input) w.broker) refl
    where
      go :
          (x : Result (BrokerError Num) (PaperPosition Num × String) × S)
          → broker.place_market_order (buy_order input) w.broker ≡ x
          → (after_risk broker run_id input d (permitted checks equity exposure) w).1.store
            ≡ w.store
      go (ok (position, order), s) f = rw f refl
      go (err x, s) f = rw f refl

  close_found-store :
      (input : MarketDecisionCycleInput Num) (d : MarketDecision Num)
      (found : Option (PaperPosition Num)) (w : World Num S)
      → (close_found broker run_id input d found w).1.store ≡ w.store
  unfolding close_found cycle_event
  close_found-store input d none w = refl
  close_found-store input d (some p) w =
      go
        (broker.close_position p.position_id input.market_context.bid (cycle_time input)
          "market-decision-sell" w.broker)
        refl
    where
      go :
          (x : Result (BrokerError Num) (CompletedTrade Num × String) × S)
          → broker.close_position p.position_id input.market_context.bid
              (cycle_time input)
              "market-decision-sell"
              w.broker
            ≡ x
          → (close_found broker run_id input d (some p) w).1.store ≡ w.store
      go (ok (trade, order), s) f = rw f refl
      go (err x, s) f = rw f refl

  act_on-store :
      (input : MarketDecisionCycleInput Num) (d : MarketDecision Num) (a : MarketDecisionAction)
      (w : World Num S)
      → (act_on broker run_id input d a w).1.store ≡ w.store
  unfolding act_on cycle_event
  act_on-store input d MarketDecisionAction.hold w = refl
  act_on-store input d MarketDecisionAction.buy w = after_risk-store input d _ _
  act_on-store input d MarketDecisionAction.sell w = close_found-store input d _ w

  cycle-store :
      (registry : Registry Num) (input : MarketDecisionCycleInput Num) (w : World Num S)
      → (run_market_decision_cycle broker run_id registry input w).1.store ≡ w.store
  unfolding run_market_decision_cycle ask_engine received_event
  cycle-store registry input w = go (decide registry input.market_context w.decisions_asked) refl
    where
      go :
          (x : Result (LifecycleError Num) (MarketDecision Num))
          → decide registry input.market_context w.decisions_asked ≡ x
          → (run_market_decision_cycle broker run_id registry input w).1.store ≡ w.store
      go (ok d) e = rw e (act_on-store input d d.action _)
      go (err x) e = rw e refl

  cycle-keeps :
      (registry : Registry Num) (input : MarketDecisionCycleInput Num) (w : World Num S)
      → Returns
          (λ result w'. w'.store ≡ w.store)
          (run_market_decision_cycle broker run_id registry input w)
  cycle-keeps registry input w =
      go (run_market_decision_cycle broker run_id registry input w) (cycle-store registry input w)
    where
      go :
          (x : Result (LifecycleError Num) (MarketDecisionCycleResult Num) × World Num S)
          → x.1.store ≡ w.store
          → Returns (λ result w'. w'.store ≡ w.store) x
      go (ok result, w') same = same
      go (err e, w') same = tt

anything : {W E A : Type 0} → (x : Result E A × W) → Returns (λ a w. Unit {0}) x
anything (ok a, w) = tt
anything (err e, w) = tt

pub Returns-any :
    {W E A B : Type 0}
    → (Q : B → W → Type 0) (m : M W E A) (f : A → M W E B) (w : W)
    → ((a : A) (w' : W) → Returns Q (f a w'))
    → Returns Q ((m >>= f) w)
Returns-any Q m f w k = Returns-then (λ _ _. Unit {0}) Q m f w (anything (m w)) λ a w' _. k a w'

-- How a record that a cycle returns ends: blocked by the gate, with its decision; opened with the entry
-- price, the order and the position of the runner's result; or closed with the exit price and the reason
-- of its trade.
pub data Settled {Num : Type 0} (result : MarketDecisionCycleResult Num)
    (r : TradeLifecycleRecord Num) : Type 0 where
  rejected :
      (d : PortfolioRiskDecision Num)
      → is_permitted d ≡ false
      → r.portfolio_risk_decision ≡ some d
      → r.status ≡ risk_rejected
      → Settled result r
  filled :
      (p : PaperPosition Num)
      → result.position ≡ some p
      → HasEntry p.entry_price (get_or_else result.order_id "") p.broker_position_id r
      → r.status ≡ open_status
      → Settled result r
  finished :
      (t : CompletedTrade Num)
      → result.trade ≡ some t
      → HasExit t.exit_price (text t.close_reason) r
      → r.status ≡ closed
      → Settled result r

module _ {Num S : Type 0} where
  abbrev pub IsKept :
      MarketDecisionCycleResult Num → Option (TradeLifecycleRecord Num) → World Num S → Type 0
  IsKept result none w = Unit {0}
  IsKept result (some r) w = (get r.id w.store ≡ some r) × Settled result r

  abbrev pub Tracks : TradeLifecycleCycleResult Num → World Num S → Type 0
  Tracks res w = IsKept res.result res.lifecycle_record w

module _ {Num S : Type 0} ⦃num : Numbers Num⦄ (env : Env)
    (input : TradeLifecycleCycleInput Num) where
  open_tracked-Tracks :
      (r : TradeLifecycleRecord Num) (result : MarketDecisionCycleResult Num)
      (at : Option (PaperPosition Num)) (w : World Num S)
      → result.position ≡ at
      → Returns Tracks (open_tracked env input r result at w)
  unfolding open_tracked call target
  open_tracked-Tracks r result none w e = tt
  open_tracked-Tracks r result (some p) w e =
      let input' : RecordOpenedInput Num = record {
        entry_price = p.entry_price;
        broker_order_id = get_or_else result.order_id "";
        broker_position_id = p.broker_position_id;
        opened_at = none;
      } in
      let entry = HasEntry p.entry_price (get_or_else result.order_id "") p.broker_position_id in
      Returns-then (λ r' w'. Moved r open_status r' w' × entry r') Tracks
        (call env r (opens input'))
        (λ opened. return (record { result = result; lifecycle_record = some opened })) w
        (Returns-both (Moved r open_status) (λ r' w'. entry r') (call env r (opens input') w)
          (call-Moved env r (opens input') w) (record_opened-HasEntry env r input' w))
        λ r' w' ((same, is_open, at), entered).
          (subst (λ k. get k w'.store ≡ some r') (sym same) at, filled p e entered is_open)

  close_tracked-Tracks :
      (r : TradeLifecycleRecord Num) (result : MarketDecisionCycleResult Num)
      (at : Option (CompletedTrade Num)) (w : World Num S)
      → result.trade ≡ at
      → Returns Tracks (close_tracked env input r result at w)
  unfolding close_tracked call target
  close_tracked-Tracks r result none w e = tt
  close_tracked-Tracks r result (some t) w e =
      let input' : RecordClosedInput Num = record {
        exit_price = t.exit_price;
        exit_reason = text t.close_reason;
        closed_at = none;
      } in
      let exit = HasExit t.exit_price (text t.close_reason) in
      Returns-then (λ r' w'. Moved r closed r' w' × exit r') Tracks (call env r (closes input'))
        (λ closed'. return (record { result = result; lifecycle_record = some closed' })) w
        (Returns-both (Moved r closed) (λ r' w'. exit r') (call env r (closes input') w)
          (call-Moved env r (closes input') w) (record_closed-HasExit env r input' w))
        λ r' w' ((same, is_closed, at), left).
          (subst (λ k. get k w'.store ≡ some r') (sym same) at, finished t e left is_closed)

  module _ (broker : PaperBroker Num S) (registry : Registry Num) where
    untracked-Tracks : (w : World Num S) → Returns Tracks (untracked env broker registry input w)
    unfolding untracked
    untracked-Tracks w =
        Returns-any Tracks
          (run_market_decision_cycle broker env.execution_run_id registry input.cycle) _ w
          λ result w'. tt

    buy_gated-Tracks :
        (r : TradeLifecycleRecord Num) (decision : PortfolioRiskDecision Num) (w : World Num S)
        → Returns Tracks (buy_gated env broker registry input r decision w)
    unfolding buy_gated call target
    buy_gated-Tracks r (blocked checks equity exposure why) w =
        let d = blocked checks equity exposure why in
        let decided = (λ (r' : TradeLifecycleRecord Num) (w' : World Num S).
          r'.portfolio_risk_decision ≡ some d) in
        Returns-then (λ r' w'. Moved r risk_rejected r' w' × decided r' w') Tracks
          (call env r (risk_rejects d)) _ w
          (Returns-both (Moved r risk_rejected) decided (call env r (risk_rejects d) w)
            (call-Moved env r (risk_rejects d) w) (record_risk_rejected-decision env r d w))
          λ r' w' ((same, is_rejected, at), named).
            Returns-then (λ result w''. w''.store ≡ w'.store) Tracks
              (run_market_decision_cycle broker env.execution_run_id registry input.cycle) _ w'
              (cycle-keeps broker env.execution_run_id registry input.cycle w')
              λ result w'' kept. (
                subst (λ m. get r'.id m ≡ some r') (sym kept)
                    (subst (λ k. get k w'.store ≡ some r') (sym same) at),
                rejected (blocked checks equity exposure why) refl named is_rejected,
              )
    buy_gated-Tracks r (permitted checks equity exposure) w =
        Returns-any Tracks (record_approved env r (permitted checks equity exposure)) _ w
          λ approved w₁.
            Returns-any Tracks (record_execution_submitted env approved) _ w₁ λ submitted w₂.
              Returns-any Tracks
                (try_catch
                  (run_market_decision_cycle broker env.execution_run_id registry input.cycle)
                  (buy_failed env submitted))
                _ w₂ λ result w₃. open_tracked-Tracks submitted result result.position w₃ refl

    track_buy-Tracks :
        (decision : MarketDecision Num) (w : World Num S)
        → Returns Tracks (track_buy env broker registry input decision w)
    unfolding track_buy
    track_buy-Tracks decision w =
        Returns-any Tracks (create_from_decision env (created_for input decision)) _ w
          λ r w'. buy_gated-Tracks r _ w'

    track_sell-Tracks :
        (existing : Option (TradeLifecycleRecord Num)) (w : World Num S)
        → Returns Tracks (track_sell env broker registry input existing w)
    unfolding track_sell
    track_sell-Tracks none w = untracked-Tracks w
    track_sell-Tracks (some existing) w =
        Returns-any Tracks (record_close_requested env existing) _ w λ requested w₁.
          Returns-any Tracks
            (try_catch (run_market_decision_cycle broker env.execution_run_id registry input.cycle)
              (sell_failed env requested))
            _ w₁ λ result w₂. close_tracked-Tracks requested result result.trade w₂ refl

    track-Tracks :
        (decision : MarketDecision Num) (action : MarketDecisionAction)
        (existing : Option (TradeLifecycleRecord Num)) (w : World Num S)
        → Returns Tracks (track env broker registry input decision action existing w)
    unfolding track
    track-Tracks decision MarketDecisionAction.hold existing w = untracked-Tracks w
    track-Tracks decision MarketDecisionAction.buy existing w = track_buy-Tracks decision w
    track-Tracks decision MarketDecisionAction.sell existing w = track_sell-Tracks existing w

    -- Whatever the strategies, the broker and the store do: where the tracked cycle returns a record,
    -- the store holds that very record under its id; and it is RISK_REJECTED with a portfolio decision that
    -- does not permit; or OPEN with the entry price, the broker position id and the order id of the position
    -- and the order that the cycle returns; or CLOSED with the exit price and the reason of the trade that it
    -- returns.
    pub run_market_decision_cycle_with_lifecycle-Tracks :
        (w : World Num S)
        → Returns Tracks (run_market_decision_cycle_with_lifecycle env broker registry input w)
    unfolding run_market_decision_cycle_with_lifecycle
    run_market_decision_cycle_with_lifecycle-Tracks w =
        Returns-any Tracks
          (find_open_record env input.cycle.market_context.strategy.strategy_id
            input.cycle.market_context.instrument)
          _ w
          λ found w₁. Returns-any Tracks (mark_existing env input found) _ w₁ λ existing w₂.
            Returns-any Tracks (ask_engine registry input.cycle.market_context) _ w₂
              λ decision w₃. track-Tracks decision decision.action existing w₃
