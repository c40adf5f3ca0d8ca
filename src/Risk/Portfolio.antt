-- ===== src/Risk/Portfolio.antt =====
-- hermes-execution/portfolio-risk-engine.ts: the account-wide gate in front of a BUY.
pub mod Laws
use trading_intelligence.Common.{ℕ, ◌<◌, Bool, true, false, List, [], ◌∷◌, ◌≡◌, length, ltb}
use trading_intelligence.Common.Numbers.{Numbers}
use trading_intelligence.Domain.Orders.{
  Account, PaperPosition, OrderRequest, OrderSizingMode, calculate_notional,
}
use trading_intelligence.Risk.Checks.{
  CheckDetail, RiskCheck, check, failed, broker_is_available, broker_is_unavailable,
  positions_below_maximum, positions_at_maximum, trades_below_maximum, trades_at_maximum,
  within_cash, exceeds_cash, within_exposure, exceeds_exposure, reasons,
}

pub record PortfolioRiskConfig (Num : Type 0) : Type 0 where
  pub portfolio_max_open_positions : ℕ
  pub max_daily_trades : ℕ
  pub max_portfolio_exposure : Num

pub record PortfolioRiskInput (Num : Type 0) : Type 0 where
  pub account : Account Num
  pub open_positions : List (PaperPosition Num)
  pub daily_trade_count : ℕ
  pub broker_available : Bool
  pub proposed_order : OrderRequest Num
  pub config : PortfolioRiskConfig Num
  pub sizing_mode : OrderSizingMode

-- Checks, account equity and exposure; the blocked decision has its reasons too.
pub data PortfolioRiskDecision (Num : Type 0) : Type 0 where
  permitted : List (RiskCheck Num) → Num → Num → PortfolioRiskDecision Num
  blocked : List (RiskCheck Num) → Num → Num → List (CheckDetail Num) → PortfolioRiskDecision Num

module _ {Num : Type 0} where
  abbrev pub is_permitted : PortfolioRiskDecision Num → Bool
  is_permitted (permitted checks equity exposure) = true
  is_permitted (blocked checks equity exposure why) = false

  abbrev pub checks_of : PortfolioRiskDecision Num → List (RiskCheck Num)
  checks_of (permitted checks equity exposure) = checks
  checks_of (blocked checks equity exposure why) = checks

  abbrev pub equity_of : PortfolioRiskDecision Num → Num
  equity_of (permitted checks equity exposure) = equity
  equity_of (blocked checks equity exposure why) = equity

  abbrev pub exposure_of : PortfolioRiskDecision Num → Num
  exposure_of (permitted checks equity exposure) = exposure
  exposure_of (blocked checks equity exposure why) = exposure

  abbrev pub blocked_reasons : PortfolioRiskDecision Num → List (CheckDetail Num)
  blocked_reasons (permitted checks equity exposure) = []
  blocked_reasons (blocked checks equity exposure why) = why

  -- The last step of `evaluate`: permitted when the list of failed checks is empty.
  decide_portfolio :
      List (RiskCheck Num)
      → List (RiskCheck Num)
      → List (CheckDetail Num)
      → Num
      → Num
      → PortfolioRiskDecision Num
  decide_portfolio [] checks why equity exposure = permitted checks equity exposure
  decide_portfolio (c ∷ cs) checks why equity exposure = blocked checks equity exposure why

module _ {Num : Type 0} ⦃num : Numbers Num⦄ where
  position_notional : PaperPosition Num → OrderSizingMode → Num
  unfolding calculate_notional
  position_notional position sizing_mode =
      calculate_notional sizing_mode position.quantity position.entry_price

  -- The `reduce` over the open positions, from the left.
  sum_exposure : OrderSizingMode → Num → List (PaperPosition Num) → Num
  unfolding position_notional
  sum_exposure mode sum [] = sum
  sum_exposure mode sum (p ∷ ps) = sum_exposure mode (num.add sum (position_notional p mode)) ps

  unfoldable pub existing_exposure : PortfolioRiskInput Num → Num
  unfolding sum_exposure
  existing_exposure input = sum_exposure input.sizing_mode (num.lit 0) input.open_positions

  unfoldable pub order_value : PortfolioRiskInput Num → Num
  unfolding calculate_notional
  order_value input =
      calculate_notional input.sizing_mode input.proposed_order.quantity input.proposed_order.price

  portfolio_checks : PortfolioRiskInput Num → Num → Num → List (RiskCheck Num)
  unfolding check
  portfolio_checks input value projected =
      check "broker-available" input.broker_available broker_is_available broker_is_unavailable
      ∷ check "max-open-positions" (ltb positions config.portfolio_max_open_positions)
          (positions_below_maximum positions config.portfolio_max_open_positions)
          (positions_at_maximum positions config.portfolio_max_open_positions)
      ∷ check "max-daily-trades" (ltb daily_trade_count config.max_daily_trades)
          (trades_below_maximum daily_trade_count config.max_daily_trades)
          (trades_at_maximum daily_trade_count config.max_daily_trades)
      ∷ check "sufficient-cash" (num.le value account.cash_balance)
          (within_cash value account.cash_balance) (exceeds_cash value account.cash_balance)
      ∷ check "max-portfolio-exposure" (num.le projected config.max_portfolio_exposure)
          (within_exposure projected config.max_portfolio_exposure)
          (exceeds_exposure projected config.max_portfolio_exposure)
      ∷ []
    where
      open input use {config, daily_trade_count, account}

      positions : ℕ
      positions = length input.open_positions

  unfoldable pub evaluate : PortfolioRiskInput Num → PortfolioRiskDecision Num
  unfolding existing_exposure order_value portfolio_checks decide_portfolio failed reasons
  evaluate input =
      let exposure = existing_exposure input in
      let value = order_value input in
      let projected = num.add exposure value in
      let equity = num.add input.account.cash_balance exposure in
      let checks = portfolio_checks input value projected in
      decide_portfolio (failed checks) checks (reasons checks) equity exposure

  -- What the gate promises: broker up, room for a position and for a trade, cash, exposure.
  pub record IsPermitted (input : PortfolioRiskInput Num) : Type 0 where
    pub available : input.broker_available ≡ true
    pub room : length input.open_positions < input.config.portfolio_max_open_positions
    pub trades : input.daily_trade_count < input.config.max_daily_trades
    pub cash : num.le (order_value input) input.account.cash_balance ≡ true
    pub exposure :
        num.le
          (num.add (existing_exposure input) (order_value input))
          input.config.max_portfolio_exposure
        ≡ true
