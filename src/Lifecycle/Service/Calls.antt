-- ===== src/Lifecycle/Service/Calls.antt =====
-- The methods of the service that act on a record, as one type of calls.
use trading_intelligence.Common.{Bool, true, false, is_set, ◌≡◌, refl, Option, some, none}
use trading_intelligence.Common.Numbers.{Numbers}
use trading_intelligence.Common.Time.{Timestamp, iso, date_parse}
use trading_intelligence.Domain.Audit.{AuditEventType}
use trading_intelligence.Lifecycle.Calculations.{
  calculate_realised_pnl, calculate_realised_pnl_percent, calculate_holding_duration_ms,
}
use trading_intelligence.Lifecycle.Errors.{Message}
use trading_intelligence.Lifecycle.Record.{
  TradeLifecycleRecord, RecordOpenedInput, RecordClosedInput,
}
use trading_intelligence.Lifecycle.World.{World, Env, Lm, LifecycleDetail, nothing_more}
use trading_intelligence.Risk.Portfolio.{
  PortfolioRiskDecision, blocked_reasons, equity_of, exposure_of,
}
use trading_intelligence.Lifecycle.Status.{
  TradeLifecycleStatus, risk_rejected, approved, execution_submitted, open_status, execution_failed,
  close_requested, closed, close_failed,
}
use trading_intelligence.Lifecycle.Service.{
  record_risk_rejected, record_approved, record_execution_submitted, record_opened,
  record_execution_failed, record_close_requested, record_close_failed, build_error,
}
use trading_intelligence.Lifecycle.Service.Closing.{record_closed, close_opened, close_if_opened}
use trading_intelligence.Lifecycle.Service.Announced.{
  Ends, transition_then_audit, given_then, lift_then, parses,
}

-- The calls that move a record along the table of transitions.
pub data Call (Num : Type 0) : Type 0 where
  risk_rejects approves : PortfolioRiskDecision Num → Call Num
  submits requests_close : Call Num
  opens : RecordOpenedInput Num → Call Num
  fails_execution fails_close : Message Num → Call Num
  closes : RecordClosedInput Num → Call Num

abbrev pub is_dated : Option Timestamp → Bool
is_dated none = false
is_dated (some t) = is_set (date_parse t)

-- The status that a call moves its record to.
unfoldable pub target : {Num : Type 0} → Call Num → TradeLifecycleStatus
target (risk_rejects decision) = risk_rejected
target (approves decision) = approved
target submits = execution_submitted
target requests_close = close_requested
target (opens input) = open_status
target (fails_execution message) = execution_failed
target (fails_close message) = close_failed
target (closes input) = closed

-- Opening a trade sets its opening time, which parses if none was given or the given one does; no
-- other call touches it.
abbrev pub Opening :
    {Num : Type 0} → TradeLifecycleRecord Num → Call Num → Option Timestamp → Type 0
Opening r (opens input) at = parses input.opened_at ≡ true → is_dated at ≡ true
Opening r c at = at ≡ r.opened_at

module _ {Num S : Type 0} ⦃num : Numbers Num⦄ (env : Env) where
  unfoldable pub call : TradeLifecycleRecord Num → Call Num → Lm Num S (TradeLifecycleRecord Num)
  unfolding record_risk_rejected record_approved record_execution_submitted record_opened
      record_closed record_execution_failed record_close_requested record_close_failed
  call r (risk_rejects decision) = record_risk_rejected env r decision
  call r (approves decision) = record_approved env r decision
  call r submits = record_execution_submitted env r
  call r requests_close = record_close_requested env r
  call r (opens input) = record_opened env r input
  call r (fails_execution message) = record_execution_failed env r message
  call r (fails_close message) = record_close_failed env r message
  call r (closes input) = record_closed env r input

  close_opened-Ends :
      (r : TradeLifecycleRecord Num) (input : RecordClosedInput Num) (entry_price : Num)
      (opened_at : Timestamp) (w : World Num S)
      → Ends r closed (λ at. at ≡ r.opened_at) w (close_opened env r input entry_price opened_at w)
  unfolding close_opened
  close_opened-Ends r input entry_price opened_at w =
      given_then r closed (λ at. at ≡ r.opened_at) env w input.closed_at _
        λ closed_at reads _.
          lift_then r closed (λ at. at ≡ r.opened_at) w reads
            (calculate_realised_pnl r.sizing_mode r.side entry_price input.exit_price r.quantity) _
            λ realised.
              lift_then r closed (λ at. at ≡ r.opened_at) w reads
                (calculate_realised_pnl_percent r.sizing_mode r.side entry_price input.exit_price
                  r.quantity)
                _
                λ percent.
                  lift_then r closed (λ at. at ≡ r.opened_at) w reads
                    (calculate_holding_duration_ms opened_at closed_at) _
                    λ duration.
                      transition_then_audit env r
                        (record r {
                          exit_price = some input.exit_price;
                          exit_reason = some input.exit_reason;
                          closed_at = some closed_at;
                          realised_pnl = some realised;
                          realised_pnl_percent = some percent;
                          holding_duration_ms = some duration;
                        })
                        closed (λ at. at ≡ r.opened_at) AuditEventType.trade_closed
                        (λ updated.
                          LifecycleDetail.closed r.entry_price input.exit_price input.exit_reason
                            realised percent duration updated.broker_position_id closed_at)
                        _ refl refl

  closes-Ends :
      (r : TradeLifecycleRecord Num) (input : RecordClosedInput Num) (entry_price : Option Num)
      (opened_at : Option Timestamp) (w : World Num S)
      → Ends r closed
          (λ at. at ≡ r.opened_at)
          w
          (close_if_opened env r input entry_price opened_at w)
  unfolding close_if_opened
  closes-Ends r input (some entry_price) (some opened_at) w =
      close_opened-Ends r input entry_price opened_at w
  closes-Ends r input (some entry_price) none w = (refl, refl)
  closes-Ends r input none opened_at w = (refl, refl)

  -- A call that throws has changed neither the store nor the audit trail.
  -- One that returns has moved the record, under its id, to a status that the table allows, has
  -- written it to the store, and has added one event with its id and new status to the trail.
  pub call-Ends :
      (r : TradeLifecycleRecord Num) (c : Call Num) (w : World Num S)
      → Ends r (target c) (Opening r c) w (call r c w)
  unfolding call target record_risk_rejected record_approved record_execution_submitted
      record_opened record_closed record_execution_failed record_close_requested record_close_failed
      build_error
  call-Ends r (risk_rejects decision) w =
      transition_then_audit env r (record r { portfolio_risk_decision = some decision })
        risk_rejected (λ at. at ≡ r.opened_at) AuditEventType.trade_risk_rejected
        (λ _. LifecycleDetail.risk_rejected (blocked_reasons decision)) _ refl refl
  call-Ends r (approves decision) w =
      transition_then_audit env r (record r { portfolio_risk_decision = some decision }) approved
        (λ at. at ≡ r.opened_at) AuditEventType.trade_approved
        (λ _. LifecycleDetail.approved (equity_of decision) (exposure_of decision)) _ refl refl
  call-Ends r submits w =
      transition_then_audit env r (record r { submitted_at = some (iso (env.clock w.clock_reads)) })
        execution_submitted (λ at. at ≡ r.opened_at) AuditEventType.trade_execution_submitted
        (λ _. nothing_more) _ refl refl
  call-Ends r requests_close w =
      transition_then_audit env r r close_requested (λ at. at ≡ r.opened_at)
        AuditEventType.trade_close_requested (λ _. nothing_more) w refl refl
  call-Ends r (opens input) w =
      given_then r open_status (Opening r (opens input)) env w input.opened_at _
        λ opened_at reads fine.
          transition_then_audit env r
            (record r {
              entry_price = some input.entry_price;
              broker_order_id = some input.broker_order_id;
              broker_position_id = input.broker_position_id;
              opened_at = some opened_at;
            })
            open_status (Opening r (opens input)) AuditEventType.trade_opened
            (λ updated.
              LifecycleDetail.opened input.entry_price input.broker_order_id
                input.broker_position_id updated.side updated.quantity updated.sizing_mode
                updated.stop_loss updated.take_profit opened_at)
            _ refl fine
  call-Ends r (fails_execution message) w =
      transition_then_audit env r
        (record r {
          error = some (record { message = message; occurred_at = iso (env.clock w.clock_reads) });
        })
        execution_failed (λ at. at ≡ r.opened_at) AuditEventType.trade_execution_failed
        (λ _. LifecycleDetail.failed message) _ refl refl
  call-Ends r (fails_close message) w =
      transition_then_audit env r
        (record r {
          error = some (record { message = message; occurred_at = iso (env.clock w.clock_reads) });
        })
        close_failed (λ at. at ≡ r.opened_at) AuditEventType.trade_close_failed
        (λ _. LifecycleDetail.failed message) _ refl refl
  call-Ends r (closes input) w = closes-Ends r input r.entry_price r.opened_at w
