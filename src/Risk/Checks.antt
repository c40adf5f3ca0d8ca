-- ===== src/Risk/Checks.antt =====
-- A named check with its outcome and the text that the source builds for it, kept as data.
use trading_intelligence.Common.{
  ℕ, String, Bool, true, not, List, [], ◌∷◌, map, filter, ◌≡◌, arith, all, if◌then◌else◌,
}
use trading_intelligence.Domain.Orders.{StrategySourceType}

-- The texts of `detail`, with the values that are put into them.
pub data CheckDetail (Num : Type 0) : Type 0 where
  broker_is_available broker_is_unavailable : CheckDetail Num
  positions_below_maximum positions_at_maximum : ℕ → ℕ → CheckDetail Num
  trades_below_maximum trades_at_maximum : ℕ → ℕ → CheckDetail Num
  within_cash exceeds_cash : Num → Num → CheckDetail Num
  within_exposure exceeds_exposure : Num → Num → CheckDetail Num
  strategy_is_enabled strategy_is_not_enabled : CheckDetail Num
  source_is_permitted source_is_not_permitted : StrategySourceType → CheckDetail Num
  no_existing_position : CheckDetail Num
  already_has_position : String → String → CheckDetail Num
  quantity_is_positive quantity_must_be_positive : Num → CheckDetail Num
  within_position_value exceeds_position_value : Num → Num → CheckDetail Num
  percentages_in_range percentages_invalid : CheckDetail Num

pub record RiskCheck (Num : Type 0) : Type 0 where
  pub name : String
  pub passed : Bool
  pub detail : CheckDetail Num

module _ {Num : Type 0} where
  -- The entry that every check pushes: its text depends on its outcome.
  unfoldable pub check : String → Bool → CheckDetail Num → CheckDetail Num → RiskCheck Num
  check name passed good bad = record {
    name = name;
    passed = passed;
    detail = if passed then good else bad;
  }

  unfoldable pub failed : List (RiskCheck Num) → List (RiskCheck Num)
  failed checks = filter (λ c. not c.passed) checks

  unfoldable pub reasons : List (RiskCheck Num) → List (CheckDetail Num)
  unfolding failed
  reasons checks = map (λ c. c.detail) (failed checks)

  -- No check failed exactly when all passed.
  pub failed_empty_of_all :
      (cs : List (RiskCheck Num)) → all (λ c. c.passed) cs ≡ true → failed cs ≡ []
  unfolding failed
  failed_empty_of_all [] h = ground arith
  failed_empty_of_all (c ∷ cs) h = ground (arith, failed_empty_of_all cs)

  pub all_of_failed_empty :
      (cs : List (RiskCheck Num)) → failed cs ≡ [] → all (λ c. c.passed) cs ≡ true
  unfolding failed
  all_of_failed_empty [] h = ground arith
  all_of_failed_empty (c ∷ cs) h = ground (arith, all_of_failed_empty cs)
