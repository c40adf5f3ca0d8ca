-- ===== src/Cycle/Guard.antt =====
-- The ways in which a decision cycle can end, and what each does to the broker.
use trading_intelligence.Common.{
  String, true, false, ◌≡◌, refl, Option, some, none, Result, ok, err, is_ok, Result-cases, inl,
  inr,
}
use trading_intelligence.Common.Numbers.{Numbers}
use trading_intelligence.Broker.{PaperBroker, BrokerError}
use trading_intelligence.Domain.Market.{MarketDecision, MarketDecisionAction}
use trading_intelligence.Domain.Orders.{PaperPosition, CompletedTrade}
use trading_intelligence.Lifecycle.Errors.{LifecycleError, nothing_to_sell}
use trading_intelligence.Lifecycle.World.{World}
use trading_intelligence.Risk.Portfolio.{
  PortfolioRiskDecision, permitted, blocked, evaluate, is_permitted, blocked_reasons,
}
use trading_intelligence.Cycle.Runner.{
  Registry, MarketDecisionCycleInput, MarketDecisionCycleResult, plain, decide, buy_order,
  cycle_time, risk_input_of, position_on, after_risk, close_found, act_on, ask_engine,
  received_event, cycle_event, run_market_decision_cycle,
}

module _ {Num S : Type 0} ⦃num : Numbers Num⦄ (broker : PaperBroker Num S) where
  -- The endings of a cycle that started with the broker in the state `s`, once the decision `d` is there.
  pub data Ending (input : MarketDecisionCycleInput Num) (s : S) (d : MarketDecision Num)
      (out : Result (LifecycleError Num) (MarketDecisionCycleResult Num) × World Num S)
      : Type 0 where
    held :
        d.action ≡ MarketDecisionAction.hold
        → out.0 ≡ ok (plain d)
        → out.1.broker ≡ s
        → Ending input s d out
    refused :
        d.action ≡ MarketDecisionAction.buy
        → is_permitted (evaluate (risk_input_of broker input s)) ≡ false
        → out.0
          ≡ ok (record (plain d) {
            blocked = some (blocked_reasons (evaluate (risk_input_of broker input s)));
          })
        → out.1.broker ≡ s
        → Ending input s d out
    bought :
        d.action ≡ MarketDecisionAction.buy
        → is_permitted (evaluate (risk_input_of broker input s)) ≡ true
        → is_ok out.0 ≡ is_ok (broker.place_market_order (buy_order input) s).0
        → out.1.broker ≡ (broker.place_market_order (buy_order input) s).1
        → Ending input s d out
    nothing_held :
        d.action ≡ MarketDecisionAction.sell
        → position_on broker input.market_context.instrument s ≡ none
        → out.0 ≡ err (nothing_to_sell input.market_context.instrument)
        → out.1.broker ≡ s
        → Ending input s d out
    sold :
        (p : PaperPosition Num)
        → d.action ≡ MarketDecisionAction.sell
        → position_on broker input.market_context.instrument s ≡ some p
        → is_ok out.0
          ≡ is_ok
              (broker.close_position p.position_id input.market_context.bid
                (cycle_time input)
                "market-decision-sell"
                s).0
        → out.1.broker
          ≡ (broker.close_position p.position_id input.market_context.bid
              (cycle_time input)
              "market-decision-sell"
              s).1
        → Ending input s d out

  -- The same for what the strategy answers.
  abbrev pub Endings :
      MarketDecisionCycleInput Num
      → S
      → Result (LifecycleError Num) (MarketDecision Num)
      → Result (LifecycleError Num) (MarketDecisionCycleResult Num) × World Num S
      → Type 0
  Endings input s (ok d) out = Ending input s d out
  Endings input s (err e) out = (out.0 ≡ err e) × (out.1.broker ≡ s)

  after_risk-Ending :
      (run_id : String) (input : MarketDecisionCycleInput Num) (d : MarketDecision Num)
      (r : PortfolioRiskDecision Num) (w : World Num S)
      → d.action ≡ MarketDecisionAction.buy
      → evaluate (risk_input_of broker input w.broker) ≡ r
      → Ending input w.broker d (after_risk broker run_id input d r w)
  unfolding after_risk cycle_event
  after_risk-Ending run_id input d (blocked checks equity exposure why) w buys e =
      refused buys (rw e refl) (rw e refl) refl
  after_risk-Ending run_id input d (permitted checks equity exposure) w buys e =
      go (broker.place_market_order (buy_order input) w.broker) refl
    where
      go :
          (x : Result (BrokerError Num) (PaperPosition Num × String) × S)
          → broker.place_market_order (buy_order input) w.broker ≡ x
          → Ending input w.broker d
              (after_risk broker run_id input d (permitted checks equity exposure) w)
      go (ok (position, order), s) f = bought buys (rw e refl) (rw f refl) (rw f refl)
      go (err x, s) f = bought buys (rw e refl) (rw f refl) (rw f refl)

  close_found-Ending :
      (run_id : String) (input : MarketDecisionCycleInput Num) (d : MarketDecision Num)
      (found : Option (PaperPosition Num)) (w : World Num S)
      → d.action ≡ MarketDecisionAction.sell
      → position_on broker input.market_context.instrument w.broker ≡ found
      → Ending input w.broker d (close_found broker run_id input d found w)
  unfolding close_found cycle_event
  close_found-Ending run_id input d none w sells e = nothing_held sells e refl refl
  close_found-Ending run_id input d (some p) w sells e =
      go
        (broker.close_position p.position_id input.market_context.bid (cycle_time input)
          "market-decision-sell" w.broker)
        refl
    where
      go :
          (x : Result (BrokerError Num) (CompletedTrade Num × String) × S)
          → broker.close_position p.position_id input.market_context.bid
              (cycle_time input)
              "market-decision-sell"
              w.broker
            ≡ x
          → Ending input w.broker d (close_found broker run_id input d (some p) w)
      go (ok (trade, order), s) f = sold p sells e (rw f refl) (rw f refl)
      go (err x, s) f = sold p sells e (rw f refl) (rw f refl)

  act_on-Ending :
      (run_id : String) (input : MarketDecisionCycleInput Num) (d : MarketDecision Num)
      (a : MarketDecisionAction) (w : World Num S)
      → d.action ≡ a
      → Ending input w.broker d (act_on broker run_id input d a w)
  unfolding act_on cycle_event
  act_on-Ending run_id input d MarketDecisionAction.hold w e = held e refl refl
  act_on-Ending run_id input d MarketDecisionAction.buy w e =
      after_risk-Ending run_id input d _ _ e refl
  act_on-Ending run_id input d MarketDecisionAction.sell w e =
      close_found-Ending run_id input d _ w e refl

  -- A cycle in which no decision is made throws that error and leaves the broker alone. Otherwise it
  -- ends in one of five ways: it holds, or a BUY is blocked, and neither touches the broker; a BUY that
  -- the portfolio gate permits is the broker's one order, and fails if that does; a SELL without a
  -- position on the instrument throws and leaves the broker alone; and a SELL closes the first position
  -- on the instrument, and fails if that does.
  pub run_market_decision_cycle-Endings :
      (run_id : String) (registry : Registry Num) (input : MarketDecisionCycleInput Num)
      (w : World Num S)
      → let out = run_market_decision_cycle broker run_id registry input w in
        Endings input w.broker (decide registry input.market_context w.decisions_asked) out
  unfolding run_market_decision_cycle ask_engine received_event
  run_market_decision_cycle-Endings run_id registry input w =
      elim (Result-cases (decide registry input.market_context w.decisions_asked)) [
        | inl (d, e) ↦ rw e (act_on-Ending run_id input d d.action _ refl)
        | inr (x, e) ↦ rw e (refl, refl)
      ]
