-- ===== src/Runtime/Reconciliation/Positions.antt =====
-- runtime/position-reconciliation.ts: what is done with the positions that the broker reports.
use trading_intelligence.Common.{
  ℕ, suc, String, Bool, List, [], ◌∷◌, Option, none, some, Result, ok, err, return, throw, ◌>>=◌,
  ◌>>◌, length, any, ◌==◌, if◌then◌else◌,
}
use trading_intelligence.Common.Decimal.{decimal}
use trading_intelligence.Common.Numbers.{Numbers}
use trading_intelligence.Domain.Audit.{AuditEventType}
use trading_intelligence.Domain.Orders.{PaperPosition, OrderSizingMode, InternalStrategy}
use trading_intelligence.Lifecycle.Errors.{
  LifecycleError, ReconciliationReason, many_active, instrument_unresolved, portfolio_unread,
  many_live, many_records, no_entry_data, not_adoptable, already_resolved, duplicate_adoption,
  broker_position_clash, strategy_instrument_clash,
}
use trading_intelligence.Lifecycle.Record.{TradeLifecycleRecord}
use trading_intelligence.Lifecycle.Service.{assert_valid_transition}
use trading_intelligence.Lifecycle.Status.{
  TradeLifecycleStatus, open_status, close_requested, close_failed,
  execution_reconciliation_required, includes,
}
use trading_intelligence.Lifecycle.Store.{
  Store, create, update, same_text, list_active_lifecycle_records,
  find_lifecycle_records_by_broker_position_id,
}
use trading_intelligence.Lifecycle.World.{
  Env, discovered, reconciled, reopened, orphaned, read_store, store_write, draw_id,
}
use trading_intelligence.Runtime.Sweeps.{
  SweepBroker, SweepContext, Sm, WorldOf, RawPortfolioPosition, ask_broker, or_throw, record_sweep,
  adopt_by, adopt_if_possible, broker_position_id_of, of_instrument,
}
use trading_intelligence.Runtime.Reconciliation.{
  Rm, position_open, named, ids_of, local_active_position_statuses, reverted_record, adopted_record,
  fail_reconciliation, fail_duplicate, broker_absent,
}

module _ {Num B : Type 0} (broker : SweepBroker Num B) (ctx : SweepContext Num) where
  -- Where the adapter does not know the position, it is told of it: what it is told must be complete.
  unfoldable pub register_unknown :
      (RawPortfolioPosition Num → String → InternalStrategy Num → B → Result String (Unit {0}) × B)
      → RawPortfolioPosition Num
      → Option Num
      → Option Num
      → Sm Num B (Option (ReconciliationReason Num))
  unfolding adopt_by broker_position_id_of
  register_unknown adopt raw (some amount) (some open_rate) = do
    adopt_by (some adopt) ctx raw
    return none
  register_unknown adopt raw _ _ =
      return (some (no_entry_data (broker_position_id_of raw) ctx.instrument))

  unfoldable pub is_known : RawPortfolioPosition Num → List (PaperPosition Num) → Bool
  unfolding same_text broker_position_id_of
  is_known raw positions =
      any (λ p. same_text p.broker_position_id (some (broker_position_id_of raw))) positions

  -- `broker.getOpenPositions()`
  abbrev pub open_positions : Sm Num B (List (PaperPosition Num))
  open_positions w = or_throw (broker.get_open_positions w.broker.broker) w

  unfoldable pub register_if_unknown :
      (RawPortfolioPosition Num → String → InternalStrategy Num → B → Result String (Unit {0}) × B)
      → RawPortfolioPosition Num
      → List (PaperPosition Num)
      → Sm Num B (Option (ReconciliationReason Num))
  unfolding register_unknown is_known
  register_if_unknown adopt raw positions =
      if is_known raw positions
      then return none
      else register_unknown adopt raw raw.amount raw.open_rate

  unfoldable pub register_by :
      Option (
        RawPortfolioPosition Num → String → InternalStrategy Num → B → Result String (Unit {0}) × B)
      → RawPortfolioPosition Num
      → Sm Num B (Option (ReconciliationReason Num))
  unfolding register_if_unknown
  register_by none raw = return none
  register_by (some adopt) raw = open_positions >>= register_if_unknown adopt raw

  -- `none` for `{ ok: true }`.
  unfoldable pub ensure_registered_with_broker :
      RawPortfolioPosition Num → Sm Num B (Option (ReconciliationReason Num))
  unfolding register_by
  ensure_registered_with_broker raw = register_by broker.adopt_position raw

  unfoldable pub keep_open :
      RawPortfolioPosition Num
      → TradeLifecycleRecord Num
      → Option (ReconciliationReason Num)
      → Rm Num B
  unfolding fail_reconciliation record_sweep broker_position_id_of
  keep_open raw existing (some reason) =
      fail_reconciliation ctx reason (some (broker_position_id_of raw)) (some existing.id) none
  keep_open raw existing none = do
    record_sweep ctx AuditEventType.broker_position_reconciled
        (reconciled (broker_position_id_of raw) existing.id existing.candidate_id)
    return (position_open (some existing))

  unfoldable pub write_reverted : RawPortfolioPosition Num → TradeLifecycleRecord Num → Rm Num B
  unfolding reverted_record update record_sweep broker_position_id_of
  write_reverted raw existing = do
    store_write (update (reverted_record ctx existing))
    record_sweep ctx AuditEventType.trade_lifecycle_reopened_for_retry
        (reopened (broker_position_id_of raw) existing.id)
    return (position_open (some (reverted_record ctx existing)))

  unfoldable pub reopen :
      RawPortfolioPosition Num
      → TradeLifecycleRecord Num
      → Option (ReconciliationReason Num)
      → Rm Num B
  unfolding fail_reconciliation assert_valid_transition write_reverted broker_position_id_of
  reopen raw existing (some reason) =
      fail_reconciliation ctx reason (some (broker_position_id_of raw)) (some existing.id) none
  reopen raw existing none = do
    assert_valid_transition close_failed open_status
    write_reverted raw existing

  unfoldable pub with_existing :
      RawPortfolioPosition Num → TradeLifecycleRecord Num → TradeLifecycleStatus → Rm Num B
  unfolding ensure_registered_with_broker keep_open reopen fail_reconciliation broker_position_id_of
  with_existing raw existing open_status =
      ensure_registered_with_broker raw >>= keep_open raw existing
  with_existing raw existing close_requested =
      ensure_registered_with_broker raw >>= keep_open raw existing
  with_existing raw existing close_failed =
      ensure_registered_with_broker raw >>= reopen raw existing
  with_existing raw existing status =
      fail_reconciliation ctx
        (already_resolved (broker_position_id_of raw) ctx.broker_provider ctx.instrument existing.id
          status)
        (some (broker_position_id_of raw)) (some existing.id) (some status)

module _ {Num B : Type 0} where
  abbrev pub created :
      WorldOf Num B
      → Result (LifecycleError Num) (Store Num)
      → Result (LifecycleError Num) (Result (LifecycleError Num) (Unit {0})) × WorldOf Num B
  created w (ok store) = (ok (ok tt), record w { store = store })
  created w (err e) = (ok (err e), w)

  -- `create`, with what it throws as a value.
  abbrev pub try_create :
      TradeLifecycleRecord Num → Sm Num B (Result (LifecycleError Num) (Unit {0}))
  try_create r w = created w (create r w.store)

module _ {Num B : Type 0} ⦃num : Numbers Num⦄ (env : Env) (broker : SweepBroker Num B)
    (ctx : SweepContext Num) (sizing_mode : OrderSizingMode) where
  -- Only `TradeLifecycleUniqueConstraintViolationError` is caught.
  unfoldable pub after_create :
      RawPortfolioPosition Num
      → TradeLifecycleRecord Num
      → Result (LifecycleError Num) (Unit {0})
      → Rm Num B
  unfolding record_sweep fail_duplicate broker_position_id_of
  after_create raw adopted (ok u) = do
    record_sweep ctx AuditEventType.broker_position_orphaned
        (orphaned (broker_position_id_of raw) adopted.id)
    return (position_open (some adopted))
  after_create raw adopted (err (broker_position_clash id)) =
      let reason =
        duplicate_adoption (broker_position_id_of raw) ctx.broker_provider
          (broker_position_clash id) in
      fail_duplicate ctx reason (some (broker_position_id_of raw)) []
  after_create raw adopted (err (strategy_instrument_clash id)) =
      let reason =
        duplicate_adoption (broker_position_id_of raw) ctx.broker_provider
          (strategy_instrument_clash id) in
      fail_duplicate ctx reason (some (broker_position_id_of raw)) []
  after_create raw adopted (err e) = throw e

  unfoldable pub store_adopted : RawPortfolioPosition Num → TradeLifecycleRecord Num → Rm Num B
  unfolding create after_create
  store_adopted raw adopted = try_create adopted >>= after_create raw adopted

  unfoldable pub adopt_orphan : RawPortfolioPosition Num → Option Num → Option Num → Rm Num B
  unfolding adopt_if_possible adopted_record store_adopted fail_reconciliation broker_position_id_of
  adopt_orphan raw (some amount) (some open_rate) = do
    adopt_if_possible broker ctx raw
    id ← draw_id env
    store_adopted raw (adopted_record ctx id sizing_mode raw amount open_rate)
  adopt_orphan raw _ _ =
      fail_reconciliation ctx (not_adoptable (broker_position_id_of raw) ctx.instrument)
        (some (broker_position_id_of raw)) none none

  unfoldable pub by_records : RawPortfolioPosition Num → List (TradeLifecycleRecord Num) → Rm Num B
  unfolding adopt_orphan with_existing fail_duplicate broker_position_id_of
  by_records raw [] = adopt_orphan raw raw.amount raw.open_rate
  by_records raw (existing ∷ []) = with_existing broker ctx raw existing existing.status
  by_records raw (r ∷ s ∷ rs) =
      fail_duplicate ctx
        (many_records (named (r ∷ s ∷ rs)) (broker_position_id_of raw) ctx.broker_provider)
        (some (broker_position_id_of raw)) (ids_of (r ∷ s ∷ rs))

  unfoldable pub with_position : RawPortfolioPosition Num → Rm Num B
  unfolding record_sweep find_lifecycle_records_by_broker_position_id by_records
      broker_position_id_of decimal
  with_position raw = do
    record_sweep ctx AuditEventType.broker_position_discovered
        (discovered (broker_position_id_of raw) (decimal raw.order_id) raw.amount raw.open_rate)
    records ← read_store (find_lifecycle_records_by_broker_position_id (broker_position_id_of raw))
    by_records raw records

  unfoldable pub by_matches :
      ℕ → Option (TradeLifecycleRecord Num) → List (RawPortfolioPosition Num) → Rm Num B
  unfolding broker_absent with_position fail_reconciliation
  by_matches id local [] = broker_absent ctx local
  by_matches id local (raw ∷ []) = with_position raw
  by_matches id local (raw ∷ raw' ∷ raws) =
      fail_reconciliation ctx (many_live (suc (suc (length raws))) ctx.instrument id) none none none

  unfoldable pub after_portfolio :
      ℕ
      → Option (TradeLifecycleRecord Num)
      → Result String (List (RawPortfolioPosition Num))
      → Rm Num B
  unfolding fail_reconciliation by_matches of_instrument
  after_portfolio id local (err e) =
      fail_reconciliation ctx (portfolio_unread ctx.instrument e) none none none
  after_portfolio id local (ok positions) = by_matches id local (of_instrument id positions)

  unfoldable pub after_resolution :
      (B → Result String (List (RawPortfolioPosition Num)) × B)
      → Option (TradeLifecycleRecord Num)
      → Result String ℕ
      → Rm Num B
  unfolding fail_reconciliation after_portfolio
  after_resolution get_raw_portfolio local (err e) =
      fail_reconciliation ctx (instrument_unresolved ctx.instrument e) none none none
  after_resolution get_raw_portfolio local (ok id) =
      ask_broker get_raw_portfolio >>= after_portfolio id local

  -- A broker without a portfolio is asked for its open positions.
  unfoldable pub by_open_positions :
      Option (TradeLifecycleRecord Num) → List (PaperPosition Num) → Rm Num B
  unfolding broker_absent
  by_open_positions local positions =
      if any (λ p. p.instrument == ctx.instrument) positions
      then return (position_open none)
      else broker_absent ctx local

  unfoldable pub by_capabilities :
      Option (TradeLifecycleRecord Num)
      → Option (B → Result String (List (RawPortfolioPosition Num)) × B)
      → Option (String → B → Result String ℕ × B)
      → Rm Num B
  unfolding after_resolution by_open_positions
  by_capabilities local (some get_raw_portfolio) (some resolve) =
      ask_broker (resolve ctx.instrument) >>= after_resolution get_raw_portfolio local
  by_capabilities local _ _ = open_positions broker ctx >>= by_open_positions local

  unfoldable pub by_local : List (TradeLifecycleRecord Num) → Rm Num B
  unfolding by_capabilities fail_duplicate includes
  by_local [] = by_capabilities none broker.get_raw_portfolio broker.resolve_instrument
  by_local (r ∷ []) =
      if includes (execution_reconciliation_required ∷ []) r.status
      then return (position_open none)
      else by_capabilities (some r) broker.get_raw_portfolio broker.resolve_instrument
  by_local (r ∷ s ∷ rs) =
      fail_duplicate ctx (many_active (named (r ∷ s ∷ rs)) ctx.strategy.strategy_id ctx.instrument)
        none (ids_of (r ∷ s ∷ rs))

  unfoldable pub reconcile_broker_position : Rm Num B
  unfolding list_active_lifecycle_records local_active_position_statuses by_local
  reconcile_broker_position =
      read_store (
        list_active_lifecycle_records ctx.strategy.strategy_id ctx.instrument
          local_active_position_statuses)
      >>= by_local
