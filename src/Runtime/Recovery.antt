-- ===== src/Runtime/Recovery.antt =====
-- runtime/lifecycle-recovery.ts: the sweep over records that a crash has left in front of OPEN.
pub mod Writes
pub mod Evidence
pub mod Resolution
pub mod Portfolio
pub mod Outcome
pub mod Sweep
use trading_intelligence.Common.{
  ℕ, suc, ◌-◌, String, Bool, true, false, not, ◌&&◌, ◌||◌, List, [], ◌∷◌, Option, none, some,
  Result, ok, err, return, throw, ◌>>=◌, ◌>>◌, length, filter, find, ◌==◌, if◌then◌else◌, leb,
  get_or_else,
}
use trading_intelligence.Common.Decimal.{decimal}
use trading_intelligence.Common.Time.{Timestamp, iso}
use trading_intelligence.Approval.Candidates.{
  TradeCandidate, TradeCandidateStatus, Repository, find_candidate, is_status,
}
use trading_intelligence.Domain.Audit.{AuditEvent, AuditEventType, record_event}
use trading_intelligence.Domain.Orders.{PaperPosition}
use trading_intelligence.Lifecycle.Errors.{
  audit_failed, Message, RecoveryReason, recovery, candidate_executed, positions_unreadable,
  unexpected_positions, unexpected_order, order_lookup_failed, never_submitted, no_portfolio_read,
  portfolio_read_failed, no_position, many_positions, claimed_by, missing_entry_data,
}
use trading_intelligence.Lifecycle.Record.{TradeLifecycleRecord}
use trading_intelligence.Lifecycle.Service.{assert_valid_transition}
use trading_intelligence.Lifecycle.Status.{
  TradeLifecycleStatus, decision_created, approved, execution_submitted, open_status,
  execution_abandoned, execution_reconciliation_required, includes,
}
use trading_intelligence.Lifecycle.Store.{
  Store, update, list_recoverable_lifecycle_records, find_lifecycle_records_by_broker_position_id,
}
use trading_intelligence.Lifecycle.World.{
  Details, sweep, SweepDetail, abandoned, ambiguous, correlated, read_store, store_write,
}
use trading_intelligence.Runtime.Sweeps.{
  SweepBroker, SweepContext, Sm, RawPortfolioPosition, ask_broker, read_candidates,
  adopt_if_possible, broker_position_id_of, of_instrument,
}

-- `PRE_OPEN_RECOVERABLE_STATUSES`
unfoldable pub pre_open_recoverable_statuses : List TradeLifecycleStatus
pre_open_recoverable_statuses =
    decision_created ∷ approved ∷ execution_submitted ∷ execution_reconciliation_required ∷ []

-- DECISION_CREATED and APPROVED: no order can have been sent.
unfoldable pub is_pre_submission : TradeLifecycleStatus → Bool
unfolding includes
is_pre_submission status = includes (decision_created ∷ approved ∷ []) status

unfoldable pub is_executed : {Num : Type 0} → Option (TradeCandidate Num) → Bool
unfolding is_status
is_executed none = false
is_executed (some c) = is_status c.status TradeCandidateStatus.executed

-- What the sweep is called with; its trail may refuse an event, with a message.
pub record RecoveryContext (Num : Type 0) : Type 0 where
  pub sweep : SweepContext Num
  pub refuses : List (AuditEvent (Details Num)) → AuditEvent (Details Num) → Option String

module _ {Num : Type 0} (ctx : RecoveryContext Num) where
  abbrev pub sweep_event : AuditEventType → SweepDetail Num → AuditEvent (Details Num)
  sweep_event event_type detail = record {
    timestamp = iso ctx.sweep.now;
    event_type = event_type;
    execution_run_id = ctx.sweep.execution_run_id;
    strategy_id = some ctx.sweep.strategy.strategy_id;
    strategy_version = none;
    source_type = none;
    instrument = some ctx.sweep.instrument;
    details = sweep ctx.sweep.broker_provider detail;
  }

module _ {Num B : Type 0} where
  abbrev pub taken : AuditEvent (Details Num) → Option String → Sm Num B (Unit {0})
  taken event none w = (ok tt, record w { audit = record_event event w.audit })
  taken event (some message) w = (err (audit_failed message), w)

  -- `ctx.auditTrail.record(...)`, which throws where the trail refuses the event.
  unfoldable pub record_recovery :
      RecoveryContext Num → AuditEventType → SweepDetail Num → Sm Num B (Unit {0})
  record_recovery ctx event_type detail w =
      let event = sweep_event ctx event_type detail in taken event (ctx.refuses w.audit event) w

module _ {Num : Type 0} (ctx : RecoveryContext Num) where
  unfoldable pub abandoned_record :
      TradeLifecycleRecord Num → RecoveryReason → TradeLifecycleRecord Num
  abandoned_record r reason = record r {
    status = execution_abandoned;
    closed_at = some (iso ctx.sweep.now);
    exit_reason = some (recovery reason);
    updated_at = iso ctx.sweep.now;
  }

  unfoldable pub flagged_record :
      TradeLifecycleRecord Num → RecoveryReason → TradeLifecycleRecord Num
  flagged_record r reason = record r {
    status = execution_reconciliation_required;
    error = some (record { message = recovery reason; occurred_at = iso ctx.sweep.now });
    updated_at = iso ctx.sweep.now;
  }

  unfoldable pub correlated_record :
      TradeLifecycleRecord Num → RawPortfolioPosition Num → Num → TradeLifecycleRecord Num
  unfolding broker_position_id_of decimal
  correlated_record r raw open_rate = record r {
    status = open_status;
    opened_at = some (get_or_else raw.open_date_time (iso ctx.sweep.now));
    entry_price = some open_rate;
    broker_order_id = some (decimal raw.order_id);
    broker_position_id = some (broker_position_id_of raw);
    updated_at = iso ctx.sweep.now;
  }

  -- An instant before the epoch is later than no update: nothing is stale then.
  unfoldable pub list_stale : ℕ → Store Num → List (TradeLifecycleRecord Num)
  unfolding list_recoverable_lifecycle_records pre_open_recoverable_statuses
  list_stale recovery_threshold_ms records =
      if leb recovery_threshold_ms ctx.sweep.now
      then list_recoverable_lifecycle_records ctx.sweep.strategy.strategy_id ctx.sweep.instrument
          pre_open_recoverable_statuses (iso (ctx.sweep.now - recovery_threshold_ms)) records
      else []

module _ {Num B : Type 0} (ctx : RecoveryContext Num) where
  unfoldable pub abandon : TradeLifecycleRecord Num → RecoveryReason → Sm Num B (Unit {0})
  unfolding assert_valid_transition record_recovery abandoned_record update
  abandon r reason = do
    assert_valid_transition r.status execution_abandoned
    record_recovery ctx AuditEventType.lifecycle_recovery_abandoned
        (abandoned r.id r.status (recovery reason))
    store_write (update (abandoned_record ctx r reason))

  -- What `markAmbiguous` writes where the record is not flagged yet.
  unfoldable pub flag : TradeLifecycleRecord Num → RecoveryReason → Sm Num B (Unit {0})
  unfolding assert_valid_transition flagged_record update
  flag r reason = do
    assert_valid_transition r.status execution_reconciliation_required
    store_write (update (flagged_record ctx r reason))

  unfoldable pub mark_ambiguous : TradeLifecycleRecord Num → RecoveryReason → Sm Num B (Unit {0})
  unfolding record_recovery flag includes
  mark_ambiguous r reason = do
    record_recovery ctx AuditEventType.lifecycle_recovery_ambiguous
        (ambiguous r.id r.status (recovery reason))
    if includes (execution_reconciliation_required ∷ []) r.status then return tt else flag r reason

  unfoldable pub correlate :
      TradeLifecycleRecord Num → RawPortfolioPosition Num → Num → Sm Num B (Unit {0})
  unfolding assert_valid_transition record_recovery correlated_record broker_position_id_of update
  correlate r raw open_rate = do
    assert_valid_transition r.status open_status
    record_recovery ctx AuditEventType.lifecycle_recovery_correlated
        (correlated (broker_position_id_of raw) r.id r.status)
    store_write (update (correlated_record ctx r raw open_rate))

module _ {Num B : Type 0} (broker : SweepBroker Num B) (ctx : RecoveryContext Num) where
  -- The order lookup, and what follows it: only for a broker that has it and a record with an order.
  unfoldable pub after_order_lookup :
      TradeLifecycleRecord Num → String → Result String Bool → Sm Num B (Unit {0})
  unfolding mark_ambiguous abandon
  after_order_lookup r order_id (ok true) =
      mark_ambiguous ctx r (unexpected_order order_id r.status)
  after_order_lookup r order_id (ok false) =
      abandon ctx r (never_submitted r.status ctx.sweep.instrument)
  after_order_lookup r order_id (err e) = mark_ambiguous ctx r (order_lookup_failed r.status e)

  unfoldable pub look_up_by :
      TradeLifecycleRecord Num
      → Option (String → B → Result String Bool × B)
      → Option String
      → Sm Num B (Unit {0})
  unfolding after_order_lookup abandon
  look_up_by r (some look_up) (some order_id) =
      ask_broker (look_up order_id) >>= after_order_lookup r order_id
  look_up_by r _ _ = abandon ctx r (never_submitted r.status ctx.sweep.instrument)

  unfoldable pub look_up_order : TradeLifecycleRecord Num → Sm Num B (Unit {0})
  unfolding look_up_by
  look_up_order r = look_up_by r broker.get_order_status r.broker_order_id

  unfoldable pub check_unexpected :
      TradeLifecycleRecord Num → List (PaperPosition Num) → Sm Num B (Unit {0})
  unfolding mark_ambiguous look_up_order
  check_unexpected r [] = look_up_order r
  check_unexpected r (p ∷ ps) =
      mark_ambiguous ctx r (unexpected_positions (suc (length ps)) ctx.sweep.instrument r.status)

  unfoldable pub after_open_positions :
      TradeLifecycleRecord Num → Result String (List (PaperPosition Num)) → Sm Num B (Unit {0})
  unfolding mark_ambiguous check_unexpected
  after_open_positions r (err e) = mark_ambiguous ctx r (positions_unreadable r.status e)
  after_open_positions r (ok positions) =
      check_unexpected r (filter (λ p. p.instrument == ctx.sweep.instrument) positions)

  unfoldable pub recover_pre_submission_record : TradeLifecycleRecord Num → Sm Num B (Unit {0})
  unfolding after_open_positions
  recover_pre_submission_record r w =
      after_open_positions r (broker.get_open_positions w.broker.broker) w

  unfoldable pub correlate_with :
      TradeLifecycleRecord Num
      → RawPortfolioPosition Num
      → Option Num
      → Option Num
      → Sm Num B (Unit {0})
  unfolding mark_ambiguous adopt_if_possible correlate broker_position_id_of
  correlate_with r raw (some amount) (some open_rate) = do
    adopt_if_possible broker ctx.sweep raw
    correlate ctx r raw open_rate
  correlate_with r raw _ _ =
      mark_ambiguous ctx r
        (missing_entry_data (broker_position_id_of raw) ctx.sweep.instrument r.id)

  -- One live position: another record's, one without entry data, or the record's own.
  unfoldable pub resolve_claim :
      TradeLifecycleRecord Num
      → RawPortfolioPosition Num
      → Option (TradeLifecycleRecord Num)
      → Sm Num B (Unit {0})
  unfolding abandon correlate_with broker_position_id_of
  resolve_claim r raw (some other) = abandon ctx r (claimed_by (broker_position_id_of raw) other.id)
  resolve_claim r raw none = correlate_with r raw raw.amount raw.open_rate

  unfoldable pub resolve_single :
      TradeLifecycleRecord Num
      → RawPortfolioPosition Num
      → List (TradeLifecycleRecord Num)
      → Sm Num B (Unit {0})
  unfolding resolve_claim
  resolve_single r raw matching_records =
      resolve_claim r raw (find (λ s. not (s.id == r.id)) matching_records)

  unfoldable pub resolve_matches :
      TradeLifecycleRecord Num → List (RawPortfolioPosition Num) → Sm Num B (Unit {0})
  unfolding mark_ambiguous abandon resolve_single broker_position_id_of
      find_lifecycle_records_by_broker_position_id
  resolve_matches r [] = abandon ctx r (no_position ctx.sweep.instrument r.id)
  resolve_matches r (raw ∷ []) = do
    matching_records ←
        read_store (find_lifecycle_records_by_broker_position_id (broker_position_id_of raw))
    resolve_single r raw matching_records
  resolve_matches r (raw ∷ raw' ∷ raws) =
      mark_ambiguous ctx r (many_positions (suc (suc (length raws))) ctx.sweep.instrument r.id)

  unfoldable pub after_portfolio :
      TradeLifecycleRecord Num
      → ℕ
      → Result String (List (RawPortfolioPosition Num))
      → Sm Num B (Unit {0})
  unfolding mark_ambiguous resolve_matches of_instrument
  after_portfolio r id (err e) = mark_ambiguous ctx r (portfolio_read_failed r.id e)
  after_portfolio r id (ok positions) = resolve_matches r (of_instrument id positions)

  unfoldable pub after_resolution :
      TradeLifecycleRecord Num
      → (B → Result String (List (RawPortfolioPosition Num)) × B)
      → Result String ℕ
      → Sm Num B (Unit {0})
  unfolding mark_ambiguous after_portfolio
  after_resolution r get_raw_portfolio (err e) = mark_ambiguous ctx r (portfolio_read_failed r.id e)
  after_resolution r get_raw_portfolio (ok id) =
      ask_broker get_raw_portfolio >>= after_portfolio r id

  unfoldable pub resolve_with :
      TradeLifecycleRecord Num
      → Option (B → Result String (List (RawPortfolioPosition Num)) × B)
      → Option (String → B → Result String ℕ × B)
      → Sm Num B (Unit {0})
  unfolding mark_ambiguous after_resolution
  resolve_with r (some get_raw_portfolio) (some resolve) =
      ask_broker (resolve ctx.sweep.instrument) >>= after_resolution r get_raw_portfolio
  resolve_with r _ _ = mark_ambiguous ctx r (no_portfolio_read ctx.sweep.broker_provider r.id)

  unfoldable pub recover_ambiguous_submission : TradeLifecycleRecord Num → Sm Num B (Unit {0})
  unfolding resolve_with
  recover_ambiguous_submission r = resolve_with r broker.get_raw_portfolio broker.resolve_instrument

  unfoldable pub recover_by_status : TradeLifecycleRecord Num → Sm Num B (Unit {0})
  unfolding is_pre_submission recover_pre_submission_record recover_ambiguous_submission
  recover_by_status r =
      if is_pre_submission r.status
      then recover_pre_submission_record r
      else recover_ambiguous_submission r

  unfoldable pub after_candidate :
      TradeLifecycleRecord Num → String → Option (TradeCandidate Num) → Sm Num B (Unit {0})
  unfolding recover_by_status mark_ambiguous is_executed
  after_candidate r id candidate =
      if is_executed candidate
      then mark_ambiguous ctx r (candidate_executed id r.status)
      else recover_by_status r

  -- `record.candidateId` is truthy: an empty id is as good as none.
  unfoldable pub recover_of : TradeLifecycleRecord Num → Option String → Sm Num B (Unit {0})
  unfolding recover_by_status after_candidate find_candidate
  recover_of r none = recover_by_status r
  recover_of r (some id) =
      if id == ""
      then recover_by_status r
      else (read_candidates (find_candidate id) >>= after_candidate r id)

  unfoldable pub recover_record : TradeLifecycleRecord Num → Sm Num B (Unit {0})
  unfolding recover_of
  recover_record r = recover_of r r.candidate_id

  unfoldable pub recover_all : List (TradeLifecycleRecord Num) → Sm Num B (Unit {0})
  unfolding recover_record
  recover_all [] = return tt
  recover_all (r ∷ rs) = recover_record r >> recover_all rs

  unfoldable pub recover_stale_lifecycle_records : ℕ → Sm Num B (Unit {0})
  unfolding list_stale recover_all
  recover_stale_lifecycle_records recovery_threshold_ms =
      read_store (list_stale ctx recovery_threshold_ms) >>= recover_all
