-- ===== src/Examples/Lifecycle.antt =====
-- A trade that is created, approved, submitted and opened.
use trading_intelligence.Common.{
  true, [], ◌∷◌, List, ◌≡◌, ◌↔◌, refl, some, none, ok, is_ok, length, filter, All, ◌==◌,
}
use trading_intelligence.Common.Dict.{get, set, has, values}
use trading_intelligence.Common.Int.{ℤ, pos, ◌-ℤ◌, ◌*ℤ◌}
use trading_intelligence.Common.Numbers.{integers, ℤ-IsOrdered}
use trading_intelligence.Common.Time.{iso}
use trading_intelligence.Domain.Orders.{buy, units}
use trading_intelligence.Risk.Portfolio.{PortfolioRiskDecision, permitted}
use trading_intelligence.Lifecycle.Calculations.{
  ExcursionValues, calculate_unrealized_pnl, update_excursion_values,
}
use trading_intelligence.Lifecycle.Calculations.Excursion.{update_excursion_values-widens}
use trading_intelligence.Lifecycle.EntryCount.{count_confirmed_entries_for_utc_day}
use trading_intelligence.Lifecycle.EntryCount.Laws.{
  IsDated, counts, count_confirmed_entries_exact, count_confirmed_entries_fails_closed,
}
use trading_intelligence.Lifecycle.Record.{TradeLifecycleRecord, RecordOpenedInput}
use trading_intelligence.Lifecycle.Service.{create_from_decision, new_record}
use trading_intelligence.Lifecycle.Service.Announced.{Ends}
use trading_intelligence.Lifecycle.Service.Calls.{approves, submits, opens, call, target, call-Ends}
use trading_intelligence.Lifecycle.Service.History.{Reaches, started, creates, calls, reached_count}
use trading_intelligence.Lifecycle.Status.{
  decision_created, approved, execution_submitted, open_status, close_requested, closed, can_move,
  includes, active_strategy_instrument_statuses, TradeLifecycleStatus, ever_reached_open_statuses,
}
use trading_intelligence.Lifecycle.Status.Paths.{
  Moves, Visits, here, next, Moves-through_open, active_iff_can_move,
}
use trading_intelligence.Lifecycle.Store.{create, update}
use trading_intelligence.Lifecycle.Store.Invariant.{IsUnique}
use trading_intelligence.Lifecycle.Store.Writes.{Write, write_all, write_all-IsUnique}
use trading_intelligence.Lifecycle.Store.Writes as writes
use trading_intelligence.Lifecycle.World.{World}
use trading_intelligence.Examples.Data.{new_trade, created_from, env, empty_world, noon}

abbrev granted : PortfolioRiskDecision ℤ
granted = permitted [] (pos 1150) (pos 150)

abbrev filled : RecordOpenedInput ℤ
filled = record {
  entry_price = pos 100;
  broker_order_id = "order-1";
  broker_position_id = some "b-1";
  opened_at = some (iso noon);
}

abbrev approved_trade : TradeLifecycleRecord ℤ
approved_trade = record new_trade {
  portfolio_risk_decision = some granted;
  status = approved;
  updated_at = iso noon;
}

abbrev submitted_trade : TradeLifecycleRecord ℤ
submitted_trade = record approved_trade {
  submitted_at = some (iso noon);
  status = execution_submitted;
  updated_at = iso noon;
}

abbrev opened_trade : TradeLifecycleRecord ℤ
opened_trade = record submitted_trade {
  entry_price = some (pos 100);
  broker_order_id = some "order-1";
  broker_position_id = some "b-1";
  opened_at = some (iso noon);
  status = open_status;
  updated_at = iso noon;
}

abbrev world_created : World ℤ (Unit {0})
world_created = (create_from_decision env created_from empty_world).1

abbrev world_approved : World ℤ (Unit {0})
world_approved = (call env new_trade (approves granted) world_created).1

abbrev after_submission : World ℤ (Unit {0})
after_submission = (call env approved_trade submits world_approved).1

abbrev after_opening : World ℤ (Unit {0})
after_opening = (call env submitted_trade (opens filled) after_submission).1

stored_new : get "trade-1" world_created.store ≡ some new_trade
unfolding create_from_decision create get set has
stored_new = refl

stored_approved : get "trade-1" world_approved.store ≡ some approved_trade
unfolding create_from_decision create call update get set has
stored_approved = refl

stored_submitted : get "trade-1" after_submission.store ≡ some submitted_trade
unfolding create_from_decision create call update get set has
stored_submitted = refl

stored_opened : get "trade-1" after_opening.store ≡ some opened_trade
unfolding create_from_decision create call update get set has
stored_opened = refl

opened_run : Reaches env empty_world after_opening
opened_run =
    calls
      (calls
        (calls (creates started created_from) "trade-1" new_trade stored_new (approves granted)
          refl)
        "trade-1" approved_trade stored_approved submits refl)
      "trade-1" submitted_trade stored_submitted (opens filled) refl

reached_count_example :
    count_confirmed_entries_for_utc_day (values after_opening.store) noon "demo"
    ≡ ok (length (filter (counts noon "demo") (values after_opening.store)))
reached_count_example = reached_count env empty_world after_opening refl opened_run noon "demo"

call-Ends_example :
    Ends new_trade approved
      (λ at. at ≡ none)
      world_created
      (call env new_trade (approves granted) world_created)
unfolding target new_record
call-Ends_example = call-Ends env new_trade (approves granted) world_created

abbrev two_writes : List (Write ℤ)
two_writes = writes.creates new_trade ∷ writes.updates approved_trade ∷ []

write_all-IsUnique_example : IsUnique (write_all [] two_writes)
write_all-IsUnique_example = write_all-IsUnique two_writes

count_confirmed_entries_exact_example :
    count_confirmed_entries_for_utc_day (opened_trade ∷ []) noon "demo"
    ≡ ok (length (filter (counts noon "demo") (opened_trade ∷ [])))
count_confirmed_entries_exact_example =
    count_confirmed_entries_exact (opened_trade ∷ []) noon "demo" (λ _. refl, tt)

counted : is_ok (count_confirmed_entries_for_utc_day (opened_trade ∷ []) noon "demo") ≡ true
unfolding count_confirmed_entries_for_utc_day new_record
counted = refl

count_confirmed_entries_fails_closed_example :
    All (λ r. (r.strategy_id == "demo") ≡ true → IsDated r) (opened_trade ∷ [])
count_confirmed_entries_fails_closed_example =
    count_confirmed_entries_fails_closed (opened_trade ∷ []) noon "demo" counted

abbrev closing_path : Moves decision_created closed
unfolding can_move
closing_path =
    next {t = close_requested}
      (next {t = open_status}
        (next {t = execution_submitted} (next {t = approved} (next here refl) refl) refl) refl)
      refl

Moves-through_open_example : Visits closing_path open_status
unfolding includes ever_reached_open_statuses
Moves-through_open_example = Moves-through_open decision_created closed refl refl closing_path

active_iff_can_move_example :
    (includes active_strategy_instrument_statuses open_status ≡ true)
    ↔ ((t : TradeLifecycleStatus) × (can_move open_status t ≡ true))
active_iff_can_move_example = active_iff_can_move open_status

abbrev at_first : ExcursionValues ℤ
at_first = record { maximum_favourable_excursion = pos 0; maximum_adverse_excursion = pos 0 }

abbrev raised : ExcursionValues ℤ
raised = record { maximum_favourable_excursion = pos 10; maximum_adverse_excursion = pos 0 }

result_now : calculate_unrealized_pnl units buy (pos 100) (pos 105) (pos 2) ≡ ok (pos 10)
unfolding calculate_unrealized_pnl ◌*ℤ◌ ◌-ℤ◌
result_now = refl

result_marked : update_excursion_values units buy (pos 100) (pos 105) (pos 2) at_first ≡ ok raised
unfolding update_excursion_values ◌*ℤ◌ ◌-ℤ◌
result_marked = refl

update_excursion_values-widens_example :
    (integers.le (pos 0) (pos 10) ≡ true)
    × (integers.le (pos 10) (pos 10) ≡ true)
    × (integers.le (pos 0) (pos 10) ≡ true)
    × (integers.le (pos 0) (pos 0) ≡ true)
    × (integers.le (pos 0) (pos 10) ≡ true)
    × (integers.le (pos 0) (pos 0) ≡ true)
update_excursion_values-widens_example =
    update_excursion_values-widens ℤ-IsOrdered units buy (pos 100) (pos 105) (pos 2) (pos 10)
      at_first raised result_now result_marked
