-- ===== src/Runtime/Exits.antt =====
-- runtime/exit-monitor.ts: when an open position is closed without being asked, and the closing.
pub mod Priority
pub mod Outcome
use trading_intelligence.Common.{
  ℕ, String, Bool, true, false, not, ◌&&◌, List, [], ◌∷◌, Option, some, none, ◌==◌, if◌then◌else◌,
  leb, find, is_set, Result, ok, err, ◌>>=◌, ◌>>◌, return, try_catch,
}
use trading_intelligence.Common.Int.{ℤ, pos, ◌-ℤ◌, leb_ℤ}
use trading_intelligence.Common.Numbers.{Numbers}
use trading_intelligence.Common.Time.{Timestamp, iso, date_parse}
use trading_intelligence.Broker.{PaperBroker, BrokerError}
use trading_intelligence.Domain.Audit.{AuditEventType}
use trading_intelligence.Domain.Market.{
  ExitTrigger, kill_switch, stop_loss, take_profit, strategy_disabled, max_holding_duration,
  opposing_signal, MarketDecision, MarketDecisionAction,
}
use trading_intelligence.Domain.Orders.{OrderSide, PaperPosition, CompletedTrade}
use trading_intelligence.Lifecycle.Errors.{
  LifecycleError, Message, text, error_message, broker_failed, no_broker_position,
  confirmed_but_not_stored, confirmed_but_failed,
}
use trading_intelligence.Lifecycle.Record.{TradeLifecycleRecord}
use trading_intelligence.Lifecycle.Service.{record_close_requested, record_close_failed}
use trading_intelligence.Lifecycle.Service.Closing.{record_closed}
use trading_intelligence.Lifecycle.Status.{open_status, includes}
use trading_intelligence.Lifecycle.Store.{same_text}
use trading_intelligence.Lifecycle.World.{
  World, Env, Lm, exit_triggered, exit_confirmed, record_audit, Details,
}

unfoldable pub is_sell : MarketDecisionAction → Bool
is_sell MarketDecisionAction.buy = false
is_sell MarketDecisionAction.sell = true
is_sell MarketDecisionAction.hold = false

pub record EvaluateExitTriggerInput (Num : Type 0) : Type 0 where
  pub lifecycle_record : TradeLifecycleRecord Num
  pub fresh_bid : Num
  pub fresh_decision : MarketDecision Num
  pub kill_switch_enabled : Bool
  pub max_holding_duration_ms : Option ℕ
  pub strategy_still_enabled : Bool
  pub now : ℕ

module _ {Num : Type 0} ⦃num : Numbers Num⦄ where
  unfoldable pub stop_hit : EvaluateExitTriggerInput Num → Bool
  stop_hit input = elim input.lifecycle_record.stop_loss [
    | none ↦ false
    | some level ↦ elim input.lifecycle_record.side [
      | OrderSide.buy ↦ num.le input.fresh_bid level
      | OrderSide.sell ↦ num.le level input.fresh_bid
    ]
  ]

  unfoldable pub target_hit : EvaluateExitTriggerInput Num → Bool
  target_hit input = elim input.lifecycle_record.take_profit [
    | none ↦ false
    | some level ↦ elim input.lifecycle_record.side [
      | OrderSide.buy ↦ num.le level input.fresh_bid
      | OrderSide.sell ↦ num.le input.fresh_bid level
    ]
  ]

  -- The time held is an integer: the clock may be behind the opening time.
  unfoldable pub held_too_long : EvaluateExitTriggerInput Num → Bool
  held_too_long input = elim input.max_holding_duration_ms [
    | none ↦ false
    | some limit ↦ elim input.lifecycle_record.opened_at [
      | none ↦ false
      | some at ↦ elim (date_parse at) [
        | none ↦ false
        | some opened ↦ leb_ℤ (pos limit) (pos input.now -ℤ pos opened)
      ]
    ]
  ]

  unfoldable pub evaluate_exit_trigger : EvaluateExitTriggerInput Num → Option ExitTrigger
  unfolding stop_hit target_hit held_too_long is_sell
  evaluate_exit_trigger input =
      if input.kill_switch_enabled
      then some kill_switch
      else if stop_hit input
      then some stop_loss
      else if target_hit input
      then some take_profit
      else if not input.strategy_still_enabled
      then some strategy_disabled
      else if held_too_long input
      then some max_holding_duration
      else if is_sell input.fresh_decision.action
      then some opposing_signal
      else none

-- `automatic-exit-${trigger.toLowerCase()}`
unfoldable pub exit_label : ExitTrigger → String
exit_label kill_switch = "automatic-exit-kill_switch"
exit_label stop_loss = "automatic-exit-stop_loss"
exit_label take_profit = "automatic-exit-take_profit"
exit_label strategy_disabled = "automatic-exit-strategy_disabled"
exit_label max_holding_duration = "automatic-exit-max_holding_duration"
exit_label opposing_signal = "automatic-exit-opposing_signal"

pub data ExecuteAutomaticExitResult (Num : Type 0) : Type 0 where
  closed_as : TradeLifecycleRecord Num → ExecuteAutomaticExitResult Num
  not_closed : Message Num → ExecuteAutomaticExitResult Num

-- A broker that can fetch rates has `getRate`: a bid, or an error, and what the fetch does to the broker.
abbrev pub RateFetching : Type 0 → Type 0 → Type 0
RateFetching Num S = Option (String → S → Option Num × S)

-- `record.brokerPositionId` is truthy: an empty id is as good as none.
unfoldable pub matching_position :
    {Num : Type 0}
    → TradeLifecycleRecord Num
    → List (PaperPosition Num)
    → Option (PaperPosition Num)
unfolding same_text
matching_position r positions = elim r.broker_position_id [
  | none ↦ find (λ p. p.instrument == r.symbol) positions
  | some id ↦
      if id == ""
      then find (λ p. p.instrument == r.symbol) positions
      else find (λ p. same_text p.broker_position_id (some id)) positions
]

module _ {Num S : Type 0} ⦃num : Numbers Num⦄ (env : Env) where
  -- The event of a trigger or of a confirmed close, at the cycle's own instant.
  unfoldable pub exit_event :
      AuditEventType → ℕ → TradeLifecycleRecord Num → Details Num → Lm Num S (Unit {0})
  exit_event event_type now r details = record_audit (record {
    timestamp = iso now;
    event_type = event_type;
    execution_run_id = env.execution_run_id;
    strategy_id = some r.strategy_id;
    strategy_version = none;
    source_type = none;
    instrument = some r.symbol;
    details = details;
  })

  unfoldable pub fail_close :
      TradeLifecycleRecord Num
      → Message Num
      → Message Num
      → Lm Num S (ExecuteAutomaticExitResult Num)
  unfolding record_close_failed
  fail_close requested message reason = do
    failed ← record_close_failed env requested message
    return (not_closed reason)

  -- The broker has confirmed the close, and storing it has thrown `error`.
  unfoldable pub persistence_failed :
      ℕ
      → TradeLifecycleRecord Num
      → TradeLifecycleRecord Num
      → CompletedTrade Num
      → LifecycleError Num
      → Lm Num S (ExecuteAutomaticExitResult Num)
  unfolding exit_event fail_close
  persistence_failed now r requested trade error = do
    exit_event AuditEventType.automatic_exit_broker_confirmed_persistence_failed now r (
        exit_confirmed r.id r.broker_position_id trade.exit_price trade.close_reason
          trade.realised_pnl (error_message error))
    fail_close requested (confirmed_but_not_stored trade.exit_price (error_message error))
        (confirmed_but_failed (error_message error))

  unfoldable pub close_stored :
      ℕ
      → TradeLifecycleRecord Num
      → TradeLifecycleRecord Num
      → CompletedTrade Num
      → Lm Num S (ExecuteAutomaticExitResult Num)
  unfolding record_closed persistence_failed
  close_stored now r requested trade =
      try_catch
        (do
          closed ← record_closed env requested (record {
            exit_price = trade.exit_price;
            exit_reason = text trade.close_reason;
            closed_at = some (iso now);
          })
          return (closed_as closed))
        (persistence_failed now r requested trade)

  unfoldable pub after_broker :
      ℕ
      → TradeLifecycleRecord Num
      → TradeLifecycleRecord Num
      → Result (BrokerError Num) (CompletedTrade Num × String)
      → Lm Num S (ExecuteAutomaticExitResult Num)
  unfolding fail_close close_stored
  after_broker now r requested (ok (trade, order_id)) = close_stored now r requested trade
  after_broker now r requested (err error) =
      fail_close requested (error_message (broker_failed error))
        (error_message (broker_failed error))

  unfoldable pub request_if_open : TradeLifecycleRecord Num → Lm Num S (TradeLifecycleRecord Num)
  unfolding record_close_requested includes
  request_if_open r =
      if includes (open_status ∷ []) r.status then record_close_requested env r else return r

module _ {Num S : Type 0} ⦃num : Numbers Num⦄ (env : Env) (broker : PaperBroker Num S)
    (rates : RateFetching Num S) where
  -- The bid fetched again, or the position's entry price where there is none.
  unfoldable pub fresh_exit_price : TradeLifecycleRecord Num → PaperPosition Num → Lm Num S Num
  fresh_exit_price r p w = elim rates [
    | none ↦ (ok p.entry_price, w)
    | some get_rate ↦
        let (bid, after) = get_rate r.symbol w.broker in
        (ok (elim bid [ none ↦ p.entry_price | some price ↦ price ]), record w { broker = after })
  ]

  -- `broker.closePosition`, with its error as a value.
  unfoldable pub broker_close :
      ExitTrigger
      → ℕ
      → PaperPosition Num
      → Num
      → Lm Num S (Result (BrokerError Num) (CompletedTrade Num × String))
  unfolding exit_label
  broker_close trigger now p exit_price w =
      let (result, after) =
        broker.close_position p.position_id exit_price (iso now) (exit_label trigger) w.broker in
      (ok result, record w { broker = after })

  unfoldable pub close_matching :
      ExitTrigger
      → ℕ
      → TradeLifecycleRecord Num
      → TradeLifecycleRecord Num
      → Option (PaperPosition Num)
      → Lm Num S (ExecuteAutomaticExitResult Num)
  unfolding fail_close fresh_exit_price broker_close after_broker
  close_matching trigger now r requested none =
      let reason = no_broker_position r.id r.broker_position_id r.symbol in
      fail_close env requested reason reason
  close_matching trigger now r requested (some p) = do
    exit_price ← fresh_exit_price r p
    result ← broker_close trigger now p exit_price
    after_broker env now r requested result

  unfoldable pub open_positions : Lm Num S (List (PaperPosition Num))
  open_positions w = (ok (broker.get_open_positions w.broker), w)

  unfoldable pub execute_automatic_exit :
      ExitTrigger → ℕ → TradeLifecycleRecord Num → Lm Num S (ExecuteAutomaticExitResult Num)
  unfolding exit_event request_if_open open_positions matching_position close_matching
  execute_automatic_exit trigger now r = do
    exit_event env AuditEventType.automatic_exit_triggered now r
        (exit_triggered trigger r.id r.broker_position_id r.entry_price r.stop_loss r.take_profit)
    requested ← request_if_open env r
    positions ← open_positions
    close_matching trigger now r requested (matching_position r positions)
