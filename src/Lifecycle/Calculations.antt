-- ===== src/Lifecycle/Calculations.antt =====
-- trade-lifecycle/calculations.ts: profit and loss, holding time, and the excursions.
pub mod Excursion
use trading_intelligence.Common.{
  ℕ, ◌-◌, Bool, true, false, String, Option, none, some, if◌then◌else◌, ltb, Result, ok, err,
}
use trading_intelligence.Common.Numbers.{Numbers, max, min}
use trading_intelligence.Common.Time.{Timestamp, date_parse}
use trading_intelligence.Domain.Orders.{
  OrderSide, OrderSizingMode, buy, sell, units, notional, calculate_notional,
}
use trading_intelligence.Lifecycle.Errors.{
  LifecycleError, not_finite, not_positive, invalid_timestamp, negative_duration,
}

infixl 5 ◌>>=◌ ◌>>◌
abbrev pub ◌>>=◌ : {E A B : Type 0} → Result E A → (A → Result E B) → Result E B
ok a >>= f = f a
err e >>= f = err e

abbrev pub ◌>>◌ : {E B : Type 0} → Result E (Unit {0}) → Result E B → Result E B
m >> k = m >>= λ _. k

pub record ExcursionValues (Num : Type 0) : Type 0 where
  pub maximum_favourable_excursion : Num
  pub maximum_adverse_excursion : Num

module _ {Num : Type 0} ⦃num : Numbers Num⦄ where
  unfoldable pub assert_positive_trade_number :
      Num → String → Result (LifecycleError Num) (Unit {0})
  assert_positive_trade_number value label =
      if num.is_finite value
      then if num.le value (num.lit 0) then err (not_positive label value) else ok tt
      else err (not_finite label value)

  direction : OrderSide → Num
  direction buy = num.lit 1
  direction sell = num.neg (num.lit 1)

  -- The formula of `calculateRealisedPnl`, once its inputs have been checked.
  pnl : OrderSizingMode → OrderSide → Num → Num → Num → Num
  unfolding direction
  pnl units side entry exit quantity =
      num.mul (num.mul (num.sub exit entry) quantity) (direction side)
  pnl notional side entry exit quantity =
      num.mul quantity (num.mul (num.div (num.sub exit entry) entry) (direction side))

  unfoldable pub calculate_realised_pnl :
      OrderSizingMode → OrderSide → Num → Num → Num → Result (LifecycleError Num) Num
  unfolding assert_positive_trade_number pnl
  calculate_realised_pnl mode side entry exit quantity = do
    assert_positive_trade_number entry "entryPrice"
    assert_positive_trade_number exit "exitPrice"
    assert_positive_trade_number quantity "quantity"
    ok (pnl mode side entry exit quantity)

  unfoldable pub calculate_realised_pnl_percent :
      OrderSizingMode → OrderSide → Num → Num → Num → Result (LifecycleError Num) Num
  unfolding calculate_realised_pnl calculate_notional
  calculate_realised_pnl_percent mode side entry exit quantity = do
    realised ← calculate_realised_pnl mode side entry exit quantity
    ok (num.mul (num.div realised (calculate_notional mode quantity entry)) (num.lit 100))

  unfoldable pub calculate_unrealized_pnl :
      OrderSizingMode → OrderSide → Num → Num → Num → Result (LifecycleError Num) Num
  unfolding calculate_realised_pnl
  calculate_unrealized_pnl = calculate_realised_pnl

  unfoldable pub update_excursion_values :
      OrderSizingMode
      → OrderSide
      → Num
      → Num
      → Num
      → ExcursionValues Num
      → Result (LifecycleError Num) (ExcursionValues Num)
  unfolding calculate_unrealized_pnl max min
  update_excursion_values mode side entry current quantity previous = do
    unrealised ← calculate_unrealized_pnl mode side entry current quantity
    ok (record {
      maximum_favourable_excursion =
          max (max previous.maximum_favourable_excursion unrealised) (num.lit 0);
      maximum_adverse_excursion =
          min (min previous.maximum_adverse_excursion unrealised) (num.lit 0);
    })

module _ {Num : Type 0} where
  parse_or : String → Timestamp → Result (LifecycleError Num) ℕ
  parse_or label t = elim (date_parse t) [ none ↦ err (invalid_timestamp label) | some ms ↦ ok ms ]

  unfoldable pub calculate_holding_duration_ms :
      Timestamp → Timestamp → Result (LifecycleError Num) ℕ
  unfolding parse_or
  calculate_holding_duration_ms opened_at closed_at = do
    opened_ms ← parse_or "openedAt" opened_at
    closed_ms ← parse_or "closedAt" closed_at
    if ltb closed_ms opened_ms then err negative_duration else ok (closed_ms - opened_ms)
