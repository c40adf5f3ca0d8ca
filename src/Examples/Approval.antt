-- ===== src/Examples/Approval.antt =====
-- A candidate that is approved, a rejection that comes too late, and the check for duplicates.
use trading_intelligence.Common.{true, false, ◌≡◌, refl, List, [], ◌∷◌, some, none, any, ◌||◌, ok}
use trading_intelligence.Common.Dict.{has, set, values}
use trading_intelligence.Common.Int.{ℤ, pos, ◌-ℤ◌}
use trading_intelligence.Common.Decimal.{numbered}
use trading_intelligence.Common.Time.{Timestamp, iso, date_parse}
use trading_intelligence.Domain.Orders.{units, buy}
use trading_intelligence.Approval.Candidates.{
  TradeCandidateInput, TradeCandidateTransitionPatch, pending, approved, rejected, human,
  new_repository, move_candidate, Repository,
}
use trading_intelligence.Approval.Candidates.Once.{Op, creates, run, won, move_candidate-once}
use trading_intelligence.Approval.Duplicates.{
  check_for_duplicate_entry, duplicate, not_duplicate, pending_buy, in_slot, in_flight_statuses,
}
use trading_intelligence.Approval.Duplicates.Fresh.{
  is_duplicate, awaits, is_duplicate-check_for_duplicate_entry, create-after_check,
}
use trading_intelligence.Lifecycle.Record.{TradeLifecycleRecord}
use trading_intelligence.Lifecycle.Store.{Store, create, list_active_lifecycle_records}
use trading_intelligence.Lifecycle.Status.{closed, includes}
use trading_intelligence.Examples.Data.{context, snapshot, noon, new_trade}

abbrev proposal : TradeCandidateInput ℤ
proposal = record {
  analysis_run_id = none;
  strategy_id = "demo";
  strategy_version = 1;
  instrument = "BTC";
  side = buy;
  confidence = pos 80;
  entry_price = pos 100;
  stop_loss = pos 90;
  take_profit = pos 120;
  risk_reward = pos 2;
  reasoning = [];
  validation_notes = [];
  expires_at = iso noon;
  execution = record {
    market_context = context;
    market_data_snapshot = snapshot;
    amount = pos 2;
    sizing_mode = units;
  };
}

abbrev nothing : TradeCandidateTransitionPatch
nothing = record {
  status = pending;
  approved_at = none;
  approved_by_user_id = none;
  approval_source = none;
  rejected_at = none;
  rejected_by_user_id = none;
  rejection_reason = none;
  executed_at = none;
  lifecycle_record_id = none;
  broker_order_id = none;
  failure_reason = none;
}

abbrev approval : TradeCandidateTransitionPatch
approval = record nothing {
  status = approved;
  approved_at = some (iso noon);
  approval_source = some human;
}

abbrev rejection : TradeCandidateTransitionPatch
rejection = record nothing { status = rejected; rejected_at = some (iso noon) }

abbrev proposed : List (Op ℤ)
proposed = creates proposal noon ∷ []

approval_wins :
    won (move_candidate "candidate-1" pending approval noon (run new_repository proposed)).0 ≡ true
unfolding move_candidate run numbered
approval_wins = refl

move_candidate-once_example :
    won
      (move_candidate "candidate-1" pending rejection noon (
        run
          (move_candidate "candidate-1" pending approval noon (run new_repository proposed)).1
          proposed)).0
    ≡ false
move_candidate-once_example =
    move_candidate-once proposed proposed "candidate-1" pending approval rejection noon noon
      approval_wins

-- The order of the times, which is that of their texts.
abbrev by_time : Timestamp → Timestamp → ℤ
by_time a b = elim (date_parse a) [
  | none ↦ pos 0
  | some m ↦ elim (date_parse b) [ none ↦ pos 0 | some n ↦ pos m -ℤ pos n ]
]

abbrev waiting : Repository ℤ
waiting = run new_repository proposed

abbrev turned_down : Repository ℤ
turned_down = (move_candidate "candidate-1" pending rejection noon waiting).1

abbrev trade : TradeLifecycleRecord ℤ
trade = record new_trade {
  id = "trade-1";
  strategy_id = "demo";
  symbol = "BTC";
  broker_position_id = none;
}

waiting_is_found :
    check_for_duplicate_entry by_time "demo" "BTC" waiting []
    ≡ duplicate (pending_buy "candidate-1")
unfolding check_for_duplicate_entry run numbered
waiting_is_found = refl

is_duplicate-check_for_duplicate_entry_example :
    is_duplicate (check_for_duplicate_entry by_time "demo" "BTC" waiting (("t", trade) ∷ []))
    ≡ any (awaits pending "demo" "BTC") (values waiting.rows)
      || (any (awaits approved "demo" "BTC") (values waiting.rows)
          || any (in_slot "demo" "BTC") (values (("t", trade) ∷ [])))
is_duplicate-check_for_duplicate_entry_example =
    is_duplicate-check_for_duplicate_entry by_time "demo" "BTC" waiting (("t", trade) ∷ []) refl
      refl

abbrev stored : Store ℤ
stored = ("trade-0", record trade { id = "trade-0"; status = closed }) ∷ []

none_left : check_for_duplicate_entry by_time "demo" "BTC" turned_down stored ≡ not_duplicate
unfolding check_for_duplicate_entry list_active_lifecycle_records includes in_flight_statuses
    move_candidate run numbered
none_left = refl

is_new : has trade.id stored ≡ false
unfolding has
is_new = refl

create-after_check_example : create trade stored ≡ ok (set trade.id trade stored)
create-after_check_example =
    create-after_check by_time trade "demo" "BTC" turned_down stored refl refl refl refl refl is_new
      none_left
