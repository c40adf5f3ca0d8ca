-- ===== src/Domain/Audit.antt =====
-- hermes-execution/types.ts and audit-trail.ts: the audit events, and the in-memory trail.
-- `Details` stands for the payload of an event, which each component defines for itself.
use trading_intelligence.Common.{ℕ, String, List, [], ◌∷◌, ◌++◌, Option, some, none}
use trading_intelligence.Common.Time.{Timestamp}
use trading_intelligence.Domain.Orders.{StrategySourceType}

pub data AuditEventType : Type 0 where
  strategy_loaded strategy_rejected candle_processed signal_generated : AuditEventType
  risk_approved risk_rejected order_submitted position_opened position_closed : AuditEventType
  realised_pnl broker_connection_attempted broker_connection_succeeded : AuditEventType
  broker_connection_failed order_acknowledged order_filled order_cancelled : AuditEventType
  smoke_test_completed smoke_test_failed smoke_test_inconclusive : AuditEventType
  position_confirmed position_close_submitted smoke_test_cleanup_required : AuditEventType
  reconciliation_started reconciliation_pending reconciliation_timed_out : AuditEventType
  close_verification_started close_verification_pending : AuditEventType
  close_verification_timed_out market_decision_received execution_triggered : AuditEventType
  execution_skipped risk_check_started risk_check_passed risk_check_failed : AuditEventType
  trade_lifecycle_created trade_risk_rejected trade_approved : AuditEventType
  trade_execution_submitted trade_opened trade_close_requested trade_closed : AuditEventType
  trade_execution_failed trade_close_failed trade_excursion_updated : AuditEventType
  trading_runtime_started trading_runtime_stopped trading_runtime_paused : AuditEventType
  trading_runtime_resumed trading_cycle_started trading_cycle_completed : AuditEventType
  trading_cycle_failed trading_cycle_skipped_overlap : AuditEventType
  trading_cycle_skipped_paused trading_cycle_skipped_market_closed : AuditEventType
  trade_candidate_created trade_candidate_approved trade_candidate_rejected : AuditEventType
  trade_candidate_expired trade_candidate_executed : AuditEventType
  trade_candidate_execution_failed broker_position_discovered : AuditEventType
  broker_position_reconciled broker_position_orphaned : AuditEventType
  broker_reconciliation_failed automatic_exit_triggered : AuditEventType
  automatic_exit_broker_confirmed_persistence_failed : AuditEventType
  automatic_exit_retry_deferred trade_candidate_auto_approved : AuditEventType
  auto_approval_failed duplicate_entry_suppressed kill_switch_entry_blocked : AuditEventType
  approved_candidate_execution_deferred broker_reconciliation_mismatch : AuditEventType
  duplicate_lifecycle_record_detected trade_lifecycle_reopened_for_retry : AuditEventType
  lifecycle_recovery_abandoned lifecycle_recovery_correlated : AuditEventType
  lifecycle_recovery_ambiguous candidate_execution_reconciled : AuditEventType
  candidate_failed_with_confirmed_broker_position universe_scan_completed : AuditEventType
  hermes_proposal_selected hermes_response_rejected daily_portfolio_summary : AuditEventType
  telegram_notification_failed opposing_signal_exit_deferred : AuditEventType
  hermes_instrument_decision_recorded market_data_degraded : AuditEventType
  market_data_recovered market_data_incident_opened : AuditEventType
  market_data_incident_unchanged market_data_incident_changed : AuditEventType
  market_data_incident_recovery_pending market_data_incident_recovered : AuditEventType
  instrument_probe_stage_result instrument_probe_classified : AuditEventType

pub record AuditEvent (Details : Type 0) : Type 0 where
  pub timestamp : Timestamp
  pub event_type : AuditEventType
  pub execution_run_id : String
  pub strategy_id : Option String
  pub strategy_version : Option ℕ
  pub source_type : Option StrategySourceType
  pub instrument : Option String
  pub details : Details

module _ {Details : Type 0} where
  -- `record`: the trail grows at its end.
  unfoldable pub record_event :
      AuditEvent Details → List (AuditEvent Details) → List (AuditEvent Details)
  record_event event events = events ++ event ∷ []

  unfoldable pub get_latest_event : List (AuditEvent Details) → Option (AuditEvent Details)
  get_latest_event [] = none
  get_latest_event (e ∷ []) = some e
  get_latest_event (e ∷ f ∷ events) = get_latest_event (f ∷ events)
