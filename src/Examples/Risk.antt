-- ===== src/Examples/Risk.antt =====
-- The two gates on an order for two units at a price of 100.
use trading_intelligence.Common.{true, [], ◌≡◌, ◌↔◌, refl, map, arith}
use trading_intelligence.Common.Int.{◌*ℤ◌, ◌+ℤ◌}
use trading_intelligence.Common.Numbers.{integers, ℤ-IsOrdered}
use trading_intelligence.Risk.Checks.{reasons}
use trading_intelligence.Risk.Portfolio.{
  evaluate, is_permitted, checks_of, blocked_reasons, IsPermitted,
}
use trading_intelligence.Risk.Portfolio.Laws.{
  evaluate-reasons, evaluate-IsPermitted_iff, evaluate_loosened, check_names,
}
use trading_intelligence.Risk.Strategy.{evaluate_risk, is_approved, IsApproved}
use trading_intelligence.Risk.Strategy.Laws.{evaluate_risk-IsApproved_iff}
use trading_intelligence.Examples.Data.{risk_input, looser, strategy, order, account, engine_config}

order_permitted : is_permitted (evaluate risk_input) ≡ true
unfolding evaluate ◌*ℤ◌ ◌+ℤ◌
order_permitted = refl

evaluate-reasons_example :
    (blocked_reasons (evaluate risk_input) ≡ reasons (checks_of (evaluate risk_input)))
    × ((is_permitted (evaluate risk_input) ≡ true) ↔ (blocked_reasons (evaluate risk_input) ≡ []))
    × (map (λ c. c.name) (checks_of (evaluate risk_input)) ≡ check_names)
evaluate-reasons_example = evaluate-reasons risk_input

evaluate-IsPermitted_iff_example :
    (is_permitted (evaluate risk_input) ≡ true) ↔ IsPermitted risk_input
evaluate-IsPermitted_iff_example = evaluate-IsPermitted_iff risk_input

evaluate_loosened_example : is_permitted (evaluate (record risk_input { config = looser })) ≡ true
evaluate_loosened_example =
    evaluate_loosened ℤ-IsOrdered risk_input looser (omega arith) (omega arith) refl order_permitted

evaluate_risk-IsApproved_iff_example :
    (is_approved (evaluate_risk strategy order account [] engine_config) ≡ true)
    ↔ IsApproved strategy order account [] engine_config
evaluate_risk-IsApproved_iff_example =
    evaluate_risk-IsApproved_iff strategy order account [] engine_config
