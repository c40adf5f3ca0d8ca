-- ===== src/Risk/Portfolio/Laws.antt =====
-- What the portfolio gate decides.
use trading_intelligence.Common.{
  ◌≤◌, String, refl, sym, ap, ◌∙◌, true, List, [], ◌∷◌, map, ◌≡◌, ◌↔◌, arith,
}
use trading_intelligence.Common.Numbers.{Numbers, IsOrdered}
use trading_intelligence.Risk.Checks.{check, failed, reasons, RiskCheck, CheckDetail}
use trading_intelligence.Risk.Portfolio.{
  PortfolioRiskInput, PortfolioRiskConfig, is_permitted, checks_of, blocked_reasons,
  existing_exposure, order_value, portfolio_checks, decide_portfolio, evaluate, IsPermitted,
}

abbrev pub check_names : List String
check_names =
    "broker-available" ∷ "max-open-positions" ∷ "max-daily-trades" ∷ "sufficient-cash"
    ∷ "max-portfolio-exposure" ∷ []

module _ {Num : Type 0} where
  decide_portfolio-reasons :
      (fs cs : List (RiskCheck Num)) (why : List (CheckDetail Num)) (equity exposure : Num)
      → why ≡ map (λ c. c.detail) fs
      → let d = decide_portfolio fs cs why equity exposure in
        (blocked_reasons d ≡ why)
        × (checks_of d ≡ cs)
        × ((is_permitted d ≡ true) ↔ (blocked_reasons d ≡ []))
  unfolding decide_portfolio
  decide_portfolio-reasons [] cs why equity exposure h = ground arith
  decide_portfolio-reasons (f ∷ fs) cs why equity exposure h = ground arith

module _ {Num : Type 0} ⦃num : Numbers Num⦄ where
  names_lem :
      (input : PortfolioRiskInput Num) (value projected : Num)
      → map (λ c. c.name) (portfolio_checks input value projected) ≡ check_names
  unfolding portfolio_checks check
  names_lem input value projected = refl

  -- Whatever the outcome, the reasons given are the texts of the checks that failed, in order, and
  -- the order is permitted exactly when there is none; both outcomes list the same five checks.
  pub evaluate-reasons :
      (input : PortfolioRiskInput Num)
      → let d = evaluate input in
        (blocked_reasons d ≡ reasons (checks_of d))
        × ((is_permitted d ≡ true) ↔ (blocked_reasons d ≡ []))
        × (map (λ c. c.name) (checks_of d) ≡ check_names)
  unfolding evaluate reasons
  evaluate-reasons input =
      let exposure = existing_exposure input in
      let equity = num.add input.account.cash_balance exposure in
      let cs = portfolio_checks input (order_value input) (num.add exposure (order_value input)) in
      let (why, listed, none_failed) =
        decide_portfolio-reasons (failed cs) cs (reasons cs) equity exposure refl in
      (
        why ∙ sym (ap reasons listed),
        none_failed,
        ap (map (λ c. c.name)) listed
            ∙ names_lem input (order_value input) (num.add exposure (order_value input)),
      )

  -- A BUY is permitted exactly when the broker is up, fewer positions are open and fewer trades were
  -- made today than configured, the order's value is within the cash, and the exposure with the
  -- order within the configured maximum.
  pub evaluate-IsPermitted_iff :
      (input : PortfolioRiskInput Num) → (is_permitted (evaluate input) ≡ true) ↔ IsPermitted input
  unfolding evaluate portfolio_checks decide_portfolio failed check
  evaluate-IsPermitted_iff input = (
    λ h. record {
      available = ground arith;
      room = ground arith;
      trades = ground arith;
      cash = ground arith;
      exposure = ground arith;
    },
    λ h. ground arith,
  )

  -- If the numbers are ordered, looser limits keep a permitted order permitted: as many positions and
  -- trades or more, and as much exposure or more.
  pub evaluate_loosened :
      IsOrdered Num
      → (input : PortfolioRiskInput Num) (config : PortfolioRiskConfig Num)
      → input.config.portfolio_max_open_positions ≤ config.portfolio_max_open_positions
      → input.config.max_daily_trades ≤ config.max_daily_trades
      → num.le input.config.max_portfolio_exposure config.max_portfolio_exposure ≡ true
      → is_permitted (evaluate input) ≡ true
      → is_permitted (evaluate (record input { config = config })) ≡ true
  unfolding existing_exposure order_value
  evaluate_loosened order input config positions trades exposure h =
      let p = (evaluate-IsPermitted_iff input).0 h in
      (evaluate-IsPermitted_iff (record input { config = config })).1 (record {
        available = p.available;
        room = omega arith;
        trades = omega arith;
        cash = p.cash;
        exposure = order.le_trans _ _ _ p.exposure exposure;
      })
