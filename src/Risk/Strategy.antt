-- ===== src/Risk/Strategy.antt =====
-- hermes-execution/risk-engine.ts: the per-strategy gate of the older execution pipeline.
pub mod Laws
use trading_intelligence.Common.{
  ℕ, ◌<◌, String, Bool, true, false, not, ◌&&◌, ◌||◌, List, [], ◌∷◌, ◌≡◌, Option, none, some,
  length, ltb, any, ◌==◌,
}
use trading_intelligence.Common.Numbers.{Numbers}
use trading_intelligence.Domain.Orders.{
  Account, PaperPosition, OrderRequest, OrderSizingMode, InternalStrategy, StrategySourceType,
  hermes_approved, demo_only, calculate_notional,
}
use trading_intelligence.Risk.Checks.{
  CheckDetail, RiskCheck, check, failed, reasons, strategy_is_enabled, strategy_is_not_enabled,
  source_is_permitted, source_is_not_permitted, no_existing_position, already_has_position,
  quantity_is_positive, quantity_must_be_positive, within_cash, exceeds_cash, within_position_value,
  exceeds_position_value, positions_below_maximum, positions_at_maximum, percentages_in_range,
  percentages_invalid,
}

pub record RiskEngineConfig : Type 0 where
  pub demo_execution_mode_enabled : Bool
  pub strategy_max_open_positions : ℕ
  pub order_sizing_mode : OrderSizingMode

pub data RiskDecision (Num : Type 0) : Type 0 where
  approved : List (RiskCheck Num) → RiskDecision Num
  rejected : List (RiskCheck Num) → List (CheckDetail Num) → RiskDecision Num

-- `sourcePermitted`
unfoldable pub source_permitted : StrategySourceType → Bool → Bool
source_permitted hermes_approved demo_enabled = true
source_permitted demo_only demo_enabled = demo_enabled

module _ {Num : Type 0} where
  unfoldable pub has_duplicate_position : String → String → List (PaperPosition Num) → Bool
  has_duplicate_position strategy_id instrument positions =
      any (λ p. (p.strategy_id == strategy_id) && (p.instrument == instrument)) positions

  decide_risk :
      List (RiskCheck Num) → List (RiskCheck Num) → List (CheckDetail Num) → RiskDecision Num
  decide_risk [] checks why = approved checks
  decide_risk (c ∷ cs) checks why = rejected checks why

  abbrev pub is_approved : RiskDecision Num → Bool
  is_approved (approved checks) = true
  is_approved (rejected checks why) = false

module _ {Num : Type 0} ⦃num : Numbers Num⦄ where
  -- `p === undefined || (p > 0 && p < 100)`
  unfoldable pub percent_valid : Option Num → Bool
  percent_valid none = true
  percent_valid (some p) = num.lt (num.lit 0) p && num.lt p (num.lit 100)

  risk_checks :
      InternalStrategy Num
      → OrderRequest Num
      → Account Num
      → List (PaperPosition Num)
      → RiskEngineConfig
      → Num
      → List (RiskCheck Num)
  unfolding check source_permitted has_duplicate_position percent_valid
  risk_checks strategy order account positions config value =
      check "strategy-enabled" strategy.enabled strategy_is_enabled strategy_is_not_enabled
      ∷ check "strategy-source-permitted"
          (source_permitted strategy.source_type config.demo_execution_mode_enabled)
          (source_is_permitted strategy.source_type) (source_is_not_permitted strategy.source_type)
      ∷ check "no-duplicate-position"
          (not (has_duplicate_position strategy.strategy_id order.instrument positions))
          no_existing_position (already_has_position strategy.strategy_id order.instrument)
      ∷ check "quantity-positive" (num.lt (num.lit 0) order.quantity)
          (quantity_is_positive order.quantity) (quantity_must_be_positive order.quantity)
      ∷ check "sufficient-cash" (num.le value account.cash_balance)
          (within_cash value account.cash_balance) (exceeds_cash value account.cash_balance)
      ∷ check "max-position-value" (num.le value strategy.risk_rules.max_position_value)
          (within_position_value value strategy.risk_rules.max_position_value)
          (exceeds_position_value value strategy.risk_rules.max_position_value)
      ∷ check "max-open-positions" (ltb (length positions) config.strategy_max_open_positions)
          (positions_below_maximum (length positions) config.strategy_max_open_positions)
          (positions_at_maximum (length positions) config.strategy_max_open_positions)
      ∷ check "valid-take-profit-stop-loss"
          (percent_valid order.take_profit_percent && percent_valid order.stop_loss_percent)
          percentages_in_range percentages_invalid
      ∷ []

  unfoldable pub evaluate_risk :
      InternalStrategy Num
      → OrderRequest Num
      → Account Num
      → List (PaperPosition Num)
      → RiskEngineConfig
      → RiskDecision Num
  unfolding calculate_notional risk_checks decide_risk failed reasons
  evaluate_risk strategy order account positions config =
      let value = calculate_notional config.order_sizing_mode order.quantity order.price in
      let checks = risk_checks strategy order account positions config value in
      decide_risk (failed checks) checks (reasons checks)

  -- What an approval promises of the strategy, the order and the account.
  pub record IsApproved (strategy : InternalStrategy Num) (order : OrderRequest Num)
      (account : Account Num) (positions : List (PaperPosition Num)) (config : RiskEngineConfig)
      : Type 0 where
    pub enabled : strategy.enabled ≡ true
    pub source : source_permitted strategy.source_type config.demo_execution_mode_enabled ≡ true
    pub fresh : has_duplicate_position strategy.strategy_id order.instrument positions ≡ false
    pub positive : num.lt (num.lit 0) order.quantity ≡ true
    pub cash :
        num.le
          (calculate_notional config.order_sizing_mode order.quantity order.price)
          account.cash_balance
        ≡ true
    pub value :
        num.le
          (calculate_notional config.order_sizing_mode order.quantity order.price)
          strategy.risk_rules.max_position_value
        ≡ true
    pub room : length positions < config.strategy_max_open_positions
    pub profit : percent_valid order.take_profit_percent ≡ true
    pub loss : percent_valid order.stop_loss_percent ≡ true
