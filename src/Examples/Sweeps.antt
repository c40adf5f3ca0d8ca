-- ===== src/Examples/Sweeps.antt =====
-- A trade whose order was sent before a crash, and a broker that shows one position.
use trading_intelligence.Common.{true, ◌≡◌, refl, [], ◌∷◌, none, some, ok}
use trading_intelligence.Common.Dict.{set}
use trading_intelligence.Common.Numbers.{integers}
use trading_intelligence.Common.Int.{ℤ, pos}
use trading_intelligence.Common.Time.{iso}
use trading_intelligence.Approval.Candidates.{new_repository}
use trading_intelligence.Domain.Orders.{units}
use trading_intelligence.Lifecycle.Record.{TradeLifecycleRecord}
use trading_intelligence.Lifecycle.Status.{execution_submitted, includes}
use trading_intelligence.Lifecycle.Store.{updated_by, create}
use trading_intelligence.Lifecycle.Store.Writes.{write_all, write_all-IsUnique, creates}
use trading_intelligence.Runtime.Sweeps.{SweepBroker, SweepContext, WorldOf, RawPortfolioPosition}
use trading_intelligence.Runtime.Recovery.{list_stale, RecoveryContext}
use trading_intelligence.Runtime.Reconciliation.Agreement.{Agrees}
use trading_intelligence.Runtime.Reconciliation.Outcome.{reconcile_broker_position-Agrees}
use trading_intelligence.Runtime.Reconciliation.Positions.{reconcile_broker_position}
use trading_intelligence.Examples.Data.{new_trade, strategy, noon, env}

abbrev sent : TradeLifecycleRecord ℤ
sent = record new_trade {
  id = "trade-1";
  strategy_id = strategy.strategy_id;
  symbol = "BTC";
  candidate_id = none;
  broker_position_id = none;
  status = execution_submitted;
  updated_at = iso noon;
}

abbrev position_7 : RawPortfolioPosition ℤ
position_7 = record {
  position_id = 7;
  order_id = 8;
  instrument_id = 1;
  is_buy = some true;
  amount = some (pos 2);
  open_rate = some (pos 100);
  open_date_time = none;
}

abbrev shows_one : SweepBroker ℤ (Unit {0})
shows_one = record {
  get_open_positions = λ b. ok [];
  get_order_status = none;
  resolve_instrument = some (λ term b. (ok 1, b));
  get_raw_portfolio = some (λ b. (ok (position_7 ∷ []), b));
  adopt_position = none;
}

abbrev later : SweepContext ℤ
later = record {
  instrument = "BTC";
  strategy = strategy;
  broker_provider = "etoro";
  execution_run_id = "run-2";
  now = 1_700_139_600_000;
}

abbrev after_crash : WorldOf ℤ (Unit {0})
after_crash = record {
  store = write_all [] (creates sent ∷ []);
  audit = [];
  broker = record { broker = tt; candidates = new_repository };
  clock_reads = 0;
  ids_drawn = 0;
  decisions_asked = 0;
}

-- The sweep's trail takes every event here.
abbrev watched : RecoveryContext ℤ
watched = record { sweep = later; refuses = λ events event. none }

sent_is_stale : list_stale watched 1000 after_crash.store ≡ sent ∷ []
unfolding list_stale write_all includes updated_by create set
sent_is_stale = refl

reconcile_broker_position-Agrees_example :
    Agrees shows_one later after_crash tt
      (reconcile_broker_position env shows_one later units after_crash)
reconcile_broker_position-Agrees_example =
    reconcile_broker_position-Agrees env shows_one later units after_crash
      (write_all-IsUnique (creates sent ∷ []))
