-- ===== src/Runtime/Reconciliation.antt =====
-- runtime/position-reconciliation.ts: the broker's position on an instrument against the records. This
-- file has the records that it makes and the answers where the broker has no position.
pub mod Positions
pub mod Agreement
pub mod Registration
pub mod Outcome
use trading_intelligence.Common.{
  ℕ, suc, String, Bool, true, false, List, [], ◌∷◌, Option, none, some, Result, ok, err, return,
  throw, ◌>>=◌, ◌>>◌, length, any, map, ◌==◌, if◌then◌else◌, get_or_else,
}
use trading_intelligence.Common.Decimal.{decimal}
use trading_intelligence.Common.Numbers.{Numbers}
use trading_intelligence.Common.Time.{iso}
use trading_intelligence.Domain.Audit.{AuditEventType}
use trading_intelligence.Domain.Market.{MarketDecisionAction}
use trading_intelligence.Domain.Orders.{
  PaperPosition, OrderSide, OrderSizingMode, InternalStrategy, buy, sell,
}
use trading_intelligence.Lifecycle.Errors.{
  LifecycleError, ReconciliationReason, text, many_active, not_resolvable, instrument_unresolved,
  portfolio_unread, many_live, many_records, no_entry_data, not_adoptable, already_resolved,
  duplicate_adoption, broker_position_clash, strategy_instrument_clash,
}
use trading_intelligence.Lifecycle.Record.{TradeLifecycleRecord}
use trading_intelligence.Lifecycle.Service.{assert_valid_transition}
use trading_intelligence.Lifecycle.Status.{
  TradeLifecycleStatus, open_status, close_requested, close_failed, closed_unreconciled,
  execution_reconciliation_required, includes,
}
use trading_intelligence.Lifecycle.Store.{
  create, update, same_text, list_active_lifecycle_records,
  find_lifecycle_records_by_broker_position_id,
}
use trading_intelligence.Lifecycle.World.{
  World, Env, duplicate_detected, mismatch, failed_closed, reconciled_closed_unreconciled,
  reconciliation_failed, discovered, reconciled, reopened, orphaned, read_store, store_write,
  draw_id,
}
use trading_intelligence.Runtime.Repair.{repair_candidate_for_confirmed_lifecycle}
use trading_intelligence.Runtime.Sweeps.{
  SweepBroker, SweepContext, Surroundings, Sm, RawPortfolioPosition, ask_broker, or_throw,
  record_sweep, adopt_if_possible, broker_position_id_of, of_instrument,
}

pub data ReconcileBrokerPositionResult (Num : Type 0) : Type 0 where
  position_open : Option (TradeLifecycleRecord Num) → ReconcileBrokerPositionResult Num
  no_position_open : ReconcileBrokerPositionResult Num
  not_ok : ReconciliationReason Num → ReconcileBrokerPositionResult Num

abbrev pub Rm : Type 0 → Type 0 → Type 0
Rm Num B = Sm Num B (ReconcileBrokerPositionResult Num)

-- `LOCAL_ACTIVE_POSITION_STATUSES`
unfoldable pub local_active_position_statuses : List TradeLifecycleStatus
local_active_position_statuses =
    open_status ∷ close_requested ∷ close_failed ∷ execution_reconciliation_required ∷ []

unfoldable pub is_reconcilable_to_closed_unreconciled : TradeLifecycleStatus → Bool
unfolding includes
is_reconcilable_to_closed_unreconciled status =
    includes (open_status ∷ close_requested ∷ close_failed ∷ []) status

-- What the messages and the events say of several records.
abbrev pub named :
    {Num : Type 0} → List (TradeLifecycleRecord Num) → List (String × TradeLifecycleStatus)
named records = map (λ r. (r.id, r.status)) records

abbrev pub ids_of : {Num : Type 0} → List (TradeLifecycleRecord Num) → List String
ids_of records = map (λ r. r.id) records

module _ {Num : Type 0} (ctx : SweepContext Num) where
  unfoldable pub unreconciled_record : TradeLifecycleRecord Num → TradeLifecycleRecord Num
  unreconciled_record r = record r {
    status = closed_unreconciled;
    closed_at = some (iso ctx.now);
    exit_reason = some (text "reconciled-broker-position-absent");
    updated_at = iso ctx.now;
  }

  unfoldable pub reverted_record : TradeLifecycleRecord Num → TradeLifecycleRecord Num
  reverted_record r = record r { status = open_status; updated_at = iso ctx.now }

-- `raw.isBuy === false ? "SELL" : "BUY"`
unfoldable pub side_of : Option Bool → OrderSide
side_of (some false) = sell
side_of _ = buy

module _ {Num : Type 0} ⦃num : Numbers Num⦄ (ctx : SweepContext Num) where
  -- The record of a position that no record of ours has.
  unfoldable pub adopted_record :
      String → OrderSizingMode → RawPortfolioPosition Num → Num → Num → TradeLifecycleRecord Num
  unfolding side_of broker_position_id_of decimal
  adopted_record id sizing_mode raw amount open_rate = record {
    id = id;
    strategy_id = ctx.strategy.strategy_id;
    strategy_version = ctx.strategy.version;
    candidate_id = none;
    broker_provider = ctx.broker_provider;
    symbol = ctx.instrument;
    side = side_of raw.is_buy;
    quantity = amount;
    sizing_mode = sizing_mode;
    decision = MarketDecisionAction.buy;
    confidence = num.lit 0;
    decision_reasons =
        "Adopted from an orphaned broker position discovered during reconciliation — no originating decision is known."
        ∷ [];
    market_data_snapshot = none;
    intelligence_summary = none;
    portfolio_risk_decision = none;
    status = open_status;
    created_at = iso ctx.now;
    updated_at = iso ctx.now;
    submitted_at = none;
    opened_at = some (get_or_else raw.open_date_time (iso ctx.now));
    closed_at = none;
    entry_price = some open_rate;
    stop_loss = none;
    take_profit = none;
    exit_price = none;
    broker_order_id = some (decimal raw.order_id);
    broker_position_id = some (broker_position_id_of raw);
    exit_reason = none;
    realised_pnl = none;
    realised_pnl_percent = none;
    holding_duration_ms = none;
    maximum_favourable_excursion = none;
    maximum_adverse_excursion = none;
    error = none;
  }

module _ {Num B : Type 0} (ctx : SweepContext Num) where
  -- BROKER_RECONCILIATION_FAILED, and the result that names the same reason.
  unfoldable pub fail_reconciliation :
      ReconciliationReason Num
      → Option String
      → Option String
      → Option TradeLifecycleStatus
      → Rm Num B
  unfolding record_sweep
  fail_reconciliation reason position_id record_id status = do
    record_sweep ctx AuditEventType.broker_reconciliation_failed
        (reconciliation_failed reason position_id record_id status)
    return (not_ok reason)

  unfoldable pub fail_duplicate : ReconciliationReason Num → Option String → List String → Rm Num B
  unfolding record_sweep
  fail_duplicate reason position_id record_ids = do
    record_sweep ctx AuditEventType.duplicate_lifecycle_record_detected
        (duplicate_detected position_id reason record_ids)
    return (not_ok reason)

  unfoldable pub write_unreconciled : TradeLifecycleRecord Num → Rm Num B
  unfolding unreconciled_record update record_sweep
  write_unreconciled r = do
    store_write (update (unreconciled_record ctx r))
    record_sweep ctx AuditEventType.broker_reconciliation_mismatch
        (mismatch r.id r.status reconciled_closed_unreconciled)
    return no_position_open

  -- The record says open, and the broker has no such position.
  unfoldable pub close_unreconciled : TradeLifecycleRecord Num → Rm Num B
  unfolding assert_valid_transition repair_candidate_for_confirmed_lifecycle write_unreconciled
  close_unreconciled r = do
    assert_valid_transition r.status closed_unreconciled
    repair_candidate_for_confirmed_lifecycle ctx r
    write_unreconciled r

  unfoldable pub refuse_mismatch : TradeLifecycleRecord Num → Rm Num B
  unfolding record_sweep
  refuse_mismatch r = do
    record_sweep ctx AuditEventType.broker_reconciliation_mismatch
        (mismatch r.id r.status (failed_closed (not_resolvable r.id ctx.instrument r.status)))
    return (not_ok (not_resolvable r.id ctx.instrument r.status))

  unfoldable pub reconcile_local_active_but_broker_absent : TradeLifecycleRecord Num → Rm Num B
  unfolding is_reconcilable_to_closed_unreconciled close_unreconciled refuse_mismatch
  reconcile_local_active_but_broker_absent r =
      if is_reconcilable_to_closed_unreconciled r.status
      then close_unreconciled r
      else refuse_mismatch r

  unfoldable pub broker_absent : Option (TradeLifecycleRecord Num) → Rm Num B
  unfolding reconcile_local_active_but_broker_absent
  broker_absent none = return no_position_open
  broker_absent (some r) = reconcile_local_active_but_broker_absent r
