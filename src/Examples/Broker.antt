-- ===== src/Examples/Broker.antt =====
-- A local broker with a cash balance of 1000 that opens a position and closes it.
use trading_intelligence.Common.{true, false, [], ◌∷◌, List, ◌≡◌, ◌↔◌, none, is_ok, err}
use trading_intelligence.Common.Int.{ℤ, pos}
use trading_intelligence.Common.Numbers.{integers, ℤ-IsExact}
use trading_intelligence.Common.Time.{iso}
use trading_intelligence.Broker.{no_open_position}
use trading_intelligence.Broker.Local.{create, place_market_order, close_position}
use trading_intelligence.Broker.Local.Invariant.{
  Call, place, close, run, IsConsistent, IsFillable, place_market_order-filled_iff,
  run-create-IsConsistent, close_position_twice,
}
use trading_intelligence.Broker.Local.Accounts.{earned, invested, run-create-balanced}
use trading_intelligence.Examples.Data.{order, fresh_account, noon}

abbrev calls : List (Call ℤ)
calls = place order ∷ place order ∷ close "position-1" (pos 110) (iso noon) "target" ∷ []

place_market_order-filled_iff_example :
    ((is_ok (place_market_order order fresh_account).0 ≡ true) ↔ IsFillable fresh_account order)
    × (is_ok (place_market_order order fresh_account).0 ≡ false
        → (place_market_order order fresh_account).1 ≡ fresh_account)
place_market_order-filled_iff_example = place_market_order-filled_iff fresh_account order

run-create-IsConsistent_example : IsConsistent (run (create none (pos 1000) true) calls)
run-create-IsConsistent_example = run-create-IsConsistent none (pos 1000) calls

close_position_twice_example :
    let w' =
      (close_position "position-1"
        (pos 110)
        (iso noon)
        "target"
        (run (create none (pos 1000) true) (place order ∷ []))).1 in
    close_position "position-1" (pos 120) (iso noon) "again" w'
    ≡ (err (no_open_position "position-1"), w')
close_position_twice_example =
    close_position_twice (run (create none (pos 1000) true) (place order ∷ [])) "position-1"
      (pos 110) (pos 120) (iso noon) (iso noon) "target" "again"
      (run-create-IsConsistent none (pos 1000) (place order ∷ []))

run-create-balanced_example :
    let s = (run (create none (pos 1000) true) calls).state in
    integers.add (pos 1000) (earned s) ≡ integers.add s.account.cash_balance (invested s)
run-create-balanced_example = run-create-balanced ℤ-IsExact none (pos 1000) calls
