-- ===== src/Risk/Strategy/Laws.antt =====
-- What the strategy gate decides.
use trading_intelligence.Common.{true, List, ◌≡◌, ◌↔◌, arith}
use trading_intelligence.Common.Numbers.{Numbers}
use trading_intelligence.Domain.Orders.{InternalStrategy, OrderRequest, Account, PaperPosition}
use trading_intelligence.Risk.Checks.{check, failed}
use trading_intelligence.Risk.Strategy.{
  RiskEngineConfig, risk_checks, decide_risk, is_approved, evaluate_risk, IsApproved,
  source_permitted,
}

module _ {Num : Type 0} ⦃num : Numbers Num⦄ where
  -- The eight checks approve an order exactly when: the strategy is enabled and its source permitted;
  -- it holds no position on the instrument; the quantity is positive; the order's value is within
  -- the cash and the strategy's maximum; fewer positions are open than configured; and each of the
  -- two percentages is absent or strictly between 0 and 100.
  pub evaluate_risk-IsApproved_iff :
      (strategy : InternalStrategy Num) (order : OrderRequest Num) (account : Account Num)
      (positions : List (PaperPosition Num)) (config : RiskEngineConfig)
      → (is_approved (evaluate_risk strategy order account positions config) ≡ true)
        ↔ IsApproved strategy order account positions config
  unfolding evaluate_risk risk_checks decide_risk failed check source_permitted
  evaluate_risk-IsApproved_iff strategy order account positions config = (
    λ h. record {
      enabled = ground arith;
      source = ground arith;
      fresh = ground arith;
      positive = ground arith;
      cash = ground arith;
      value = ground arith;
      room = ground arith;
      profit = ground arith;
      loss = ground arith;
    },
    λ h. ground arith,
  )
