-- ===== src/Lifecycle/Calculations/Excursion.antt =====
-- The excursions only ever widen, around zero.
use trading_intelligence.Common.{true, ◌≡◌, arith, ok}
use trading_intelligence.Common.Numbers.{Numbers, IsOrdered, max, min}
use trading_intelligence.Domain.Orders.{OrderSide, OrderSizingMode}
use trading_intelligence.Lifecycle.Calculations.{
  ExcursionValues, update_excursion_values, calculate_unrealized_pnl,
}

module _ {Num : Type 0} ⦃num : Numbers Num⦄ where
  module _ (order : IsOrdered Num) where
    le-max_left : (x y : Num) → num.le x (max x y) ≡ true
    unfolding max
    le-max_left x y = ground (arith, order.le_total x y, order.le_total x x)

    le-max_right : (x y : Num) → num.le y (max x y) ≡ true
    unfolding max
    le-max_right x y = ground (arith, order.le_total x y, order.le_total y y)

    min-le_left : (x y : Num) → num.le (min x y) x ≡ true
    unfolding min
    min-le_left x y = ground (arith, order.le_total x y, order.le_total x x)

    min-le_right : (x y : Num) → num.le (min x y) y ≡ true
    unfolding min
    min-le_right x y = ground (arith, order.le_total x y, order.le_total y y)

    widen_max :
        (a b z : Num)
        → (num.le a (max (max a b) z) ≡ true)
          × (num.le b (max (max a b) z) ≡ true)
          × (num.le z (max (max a b) z) ≡ true)
    widen_max a b z = (
      order.le_trans a (max a b) (max (max a b) z) (le-max_left a b) (le-max_left (max a b) z),
      order.le_trans b (max a b) (max (max a b) z) (le-max_right a b) (le-max_left (max a b) z),
      le-max_right (max a b) z,
    )

    widen_min :
        (a b z : Num)
        → (num.le (min (min a b) z) a ≡ true)
          × (num.le (min (min a b) z) b ≡ true)
          × (num.le (min (min a b) z) z ≡ true)
    widen_min a b z = (
      order.le_trans (min (min a b) z) (min a b) a (min-le_left (min a b) z) (min-le_left a b),
      order.le_trans (min (min a b) z) (min a b) b (min-le_left (min a b) z) (min-le_right a b),
      min-le_right (min a b) z,
    )

    -- If the numbers are ordered and the excursions can be updated, the new ones lie outside the old ones, enclose the present
    -- result, and have the signs that their names promise.
    pub update_excursion_values-widens :
        (mode : OrderSizingMode) (side : OrderSide) (entry current quantity now : Num)
        (previous next : ExcursionValues Num)
        → calculate_unrealized_pnl mode side entry current quantity ≡ ok now
        → update_excursion_values mode side entry current quantity previous ≡ ok next
        → (num.le previous.maximum_favourable_excursion next.maximum_favourable_excursion ≡ true)
          × (num.le now next.maximum_favourable_excursion ≡ true)
          × (num.le (num.lit 0) next.maximum_favourable_excursion ≡ true)
          × (num.le next.maximum_adverse_excursion previous.maximum_adverse_excursion ≡ true)
          × (num.le next.maximum_adverse_excursion now ≡ true)
          × (num.le next.maximum_adverse_excursion (num.lit 0) ≡ true)
    unfolding update_excursion_values
    update_excursion_values-widens mode side entry current quantity now previous next is_now
          updated =
        ground (
          arith,
          widen_max previous.maximum_favourable_excursion now (num.lit 0),
          widen_min previous.maximum_adverse_excursion now (num.lit 0),
        )
