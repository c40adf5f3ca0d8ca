-- ===== src/Examples/Runtime.antt =====
-- Market data of BTC that goes missing and comes back, an opposing signal, and an exit at the target.
use trading_intelligence.Common.{
  ℕ, suc, ◌+◌, true, false, [], ◌∷◌, List, ◌≡◌, ◌≤◌, ◌↔◌, refl, some, none, ◌==◌, filter,
  if◌then◌else◌, is_set, leb, arith,
}
use trading_intelligence.Common.Dict.{get}
use trading_intelligence.Common.Int.{ℤ, pos}
use trading_intelligence.Common.Numbers.{integers}
use trading_intelligence.Common.Time.{iso}
use trading_intelligence.Broker.Local as local
use trading_intelligence.Broker.Local.Interface.{local_paper_broker}
use trading_intelligence.Domain.Market.{ExitTrigger, take_profit}
use trading_intelligence.Lifecycle.Record.{TradeLifecycleRecord}
use trading_intelligence.Lifecycle.Status.{open_status}
use trading_intelligence.Lifecycle.Service.{new_record}
use trading_intelligence.Lifecycle.Service.Stored.{Returns}
use trading_intelligence.Lifecycle.World as trade
use trading_intelligence.Runtime.Exits.{
  EvaluateExitTriggerInput, evaluate_exit_trigger, execute_automatic_exit,
}
use trading_intelligence.Runtime.Exits.Outcome.{Leaves, execute_automatic_exit-Leaves}
use trading_intelligence.Runtime.Exits.Priority.{is_due, rank, evaluate_exit_trigger_iff}
use trading_intelligence.Runtime.Incidents.{
  ActiveIncidentRecord, InstrumentObservation, CanonicalIncidentReason, MarketDataIncidentTracker,
  Round, observe, record_cycle_observations, nothing_yet, persists,
}
use trading_intelligence.Runtime.IncidentTypes.{missing_candles}
use trading_intelligence.Runtime.Incidents.Machine.{advance_all, record_cycle-machine}
use trading_intelligence.Runtime.Incidents.Notices.{notices, fingerprint_moves, observe-notices}
use trading_intelligence.Runtime.Incidents.Persistence.{Agrees, on_disk, run_cycles-Agrees}
use trading_intelligence.Runtime.Incidents.Recovery.{run_cycles, run_cycles-recovers}
use trading_intelligence.Runtime.OpposingSignals.{
  OpposingSignalGateInput, allowed, count_of, evaluate, min_hold_reached,
}
use trading_intelligence.Runtime.OpposingSignals.Stability.{
  Event, evaluates, resets, finds, after, streak, after-streak, evaluate_allowed_iff,
}
use trading_intelligence.Examples.Data.{new_trade, decision, env, noon, order, fresh_account}

abbrev gap : CanonicalIncidentReason
gap = record {
  category = missing_candles;
  timeframe = some "1h";
  missing_interval_start_ms = some 1000;
  missing_interval_end_ms = some 2000;
  summary = "a gap";
}

abbrev missing : InstrumentObservation
missing = record { instrument = "BTC"; valid = false; reason = some gap }

abbrev healthy : InstrumentObservation
healthy = record { instrument = "BTC"; valid = true; reason = none }

abbrev tracker : MarketDataIncidentTracker
tracker = record {
  incidents = [];
  recovery_threshold = 2;
  persistence_path = some "state.json";
  state_loaded = true;
  scheduled = [];
}

abbrev active : ActiveIncidentRecord
active = record {
  instrument = "BTC";
  fingerprint = "BTC|missing-candles|1h|1000|2000";
  category = missing_candles;
  reason = gap;
  opened_at = 5000;
  last_observed_at = 5000;
  observation_count = 1;
  consecutive_healthy_count = 0;
}

abbrev alerted : MarketDataIncidentTracker
alerted = record tracker { incidents = ("BTC", active) ∷ [] }

record_cycle-machine_example :
    get "BTC" (record_cycle_observations 6000 (missing ∷ healthy ∷ []) tracker).1.incidents
    ≡ advance_all 2 6000 (filter (λ o. o.instrument == "BTC") (missing ∷ healthy ∷ [])) none
unfolding get
record_cycle-machine_example = record_cycle-machine 6000 (missing ∷ healthy ∷ []) tracker "BTC"

abbrev healthy_cycles : List (ℕ × List InstrumentObservation)
healthy_cycles = (6000, healthy ∷ []) ∷ (7000, healthy ∷ []) ∷ []

run_cycles-recovers_example :
    is_set (get "BTC" (run_cycles ((5500, missing ∷ []) ∷ healthy_cycles) alerted).incidents)
    ≡ false
run_cycles-recovers_example =
    run_cycles-recovers "BTC" 5500 (missing ∷ []) healthy_cycles alerted
      (missing, refl, refl, (gap, refl)) ((healthy, refl, refl), ((healthy, refl, refl), tt))
      (omega arith)

abbrev first_round : Round
first_round = record { incidents = []; outcome = nothing_yet; should_persist = false }

observe-notices_example :
    notices (observe 2 6000 missing first_round).outcome
    ≡ notices nothing_yet
      + (if fingerprint_moves
            (get "BTC" [])
            (get "BTC" (observe 2 6000 missing first_round).incidents)
          then 1
          else 0)
observe-notices_example = observe-notices 2 6000 missing first_round

run_cycles-Agrees_example :
    Agrees
      (on_disk [] (run_cycles ((6000, missing ∷ []) ∷ healthy_cycles) tracker))
      (run_cycles ((6000, missing ∷ []) ∷ healthy_cycles) tracker).incidents
unfolding on_disk persists
run_cycles-Agrees_example =
    run_cycles-Agrees [] ((6000, missing ∷ []) ∷ healthy_cycles) tracker refl (λ j. refl)

abbrev opposing : OpposingSignalGateInput
opposing = record {
  position_id = "trade-1";
  is_opposing_signal_triggered = true;
  opened_at = some (iso 1000);
  now = 9000;
  config = record { min_hold_ms = 5000; required_consecutive_signals = 2 };
}

abbrev history : List Event
history = evaluates opposing ∷ finds "BTC" (some "trade-1") ∷ resets "trade-0" ∷ []

after-streak_example : count_of "trade-1" (after history) ≡ streak "trade-1" history
after-streak_example = after-streak "trade-1" history

evaluate_allowed_iff_example : ((evaluate opposing (after history)).0 ≡ some (allowed 2)) ↔ (
    (true ≡ true)
    × (min_hold_reached opposing ≡ true)
    × (suc (streak "trade-1" history) ≡ 2)
    × (leb 2 2 ≡ true))
evaluate_allowed_iff_example = evaluate_allowed_iff opposing history 2

abbrev open_trade : TradeLifecycleRecord ℤ
open_trade = record new_trade {
  status = open_status;
  entry_price = some (pos 100);
  opened_at = some (iso noon);
}

abbrev at_target : EvaluateExitTriggerInput ℤ
at_target = record {
  lifecycle_record = open_trade;
  fresh_bid = pos 121;
  fresh_decision = decision;
  kill_switch_enabled = false;
  max_holding_duration_ms = none;
  strategy_still_enabled = true;
  now = noon;
}

evaluate_exit_trigger_iff_example : (evaluate_exit_trigger at_target ≡ some take_profit) ↔ (
    (is_due at_target take_profit ≡ true)
    × ((u : ExitTrigger) → is_due at_target u ≡ true → rank take_profit ≤ rank u))
evaluate_exit_trigger_iff_example = evaluate_exit_trigger_iff at_target take_profit

abbrev trading : trade.World ℤ (local.World ℤ)
trading = record {
  store = ("trade-1", open_trade) ∷ [];
  audit = [];
  broker = (local.place_market_order order fresh_account).1;
  clock_reads = 0;
  ids_drawn = 0;
  decisions_asked = 0;
}

execute_automatic_exit-Leaves_example :
    Returns
      (Leaves "trade-1")
      (execute_automatic_exit env local_paper_broker none take_profit noon open_trade trading)
unfolding new_record
execute_automatic_exit-Leaves_example =
    execute_automatic_exit-Leaves env local_paper_broker none take_profit noon open_trade trading
