-- ===== src/Lifecycle/Service/Filled.antt =====
-- What the service's methods put into the record that they return.
use trading_intelligence.Common.{
  String, ◌≡◌, refl, Option, some, none, Result, ok, err, ◌>>=◌, ◌>>◌, return, Bool-cases,
  Result-cases, inl, inr,
}
use trading_intelligence.Common.Numbers.{Numbers}
use trading_intelligence.Common.Time.{Timestamp, iso}
use trading_intelligence.Domain.Audit.{AuditEventType}
use trading_intelligence.Lifecycle.Calculations.{
  calculate_realised_pnl, calculate_realised_pnl_percent, calculate_holding_duration_ms,
}
use trading_intelligence.Lifecycle.Errors.{LifecycleError, Message}
use trading_intelligence.Lifecycle.Record.{
  TradeLifecycleRecord, RecordOpenedInput, RecordClosedInput,
}
use trading_intelligence.Lifecycle.Status.{
  TradeLifecycleStatus, risk_rejected, open_status, closed, can_move,
}
use trading_intelligence.Lifecycle.Store.{update}
use trading_intelligence.Lifecycle.World.{World, Env, Lm, LifecycleDetail, lift}
use trading_intelligence.Lifecycle.Service.{
  audit, transition, assert_valid_transition, given_or_now, record_opened, record_risk_rejected,
}
use trading_intelligence.Lifecycle.Service.Closing.{record_closed, close_opened, close_if_opened}
use trading_intelligence.Lifecycle.Service.Stored.{Returns}
use trading_intelligence.Risk.Portfolio.{PortfolioRiskDecision, blocked_reasons}

module _ {Num : Type 0} where
  -- The record has the prices and the names of an opening.
  abbrev pub HasEntry : Num → String → Option String → TradeLifecycleRecord Num → Type 0
  HasEntry price order position r =
      (r.entry_price ≡ some price)
      × (r.broker_order_id ≡ some order)
      × (r.broker_position_id ≡ position)

  -- The record has the price and the reason of a close.
  abbrev pub HasExit : Num → Message Num → TradeLifecycleRecord Num → Type 0
  HasExit price reason r = (r.exit_price ≡ some price) × (r.exit_reason ≡ some reason)

module _ {Num S : Type 0} (P : TradeLifecycleRecord Num → Type 0) where
  abbrev Fills : Result (LifecycleError Num) (TradeLifecycleRecord Num) × World Num S → Type 0
  Fills x = Returns (λ r w. P r) x

  transition-Fills :
      (env : Env) (r patched : TradeLifecycleRecord Num) (to : TradeLifecycleStatus)
      (event : AuditEventType) (detail : TradeLifecycleRecord Num → LifecycleDetail Num)
      (w : World Num S)
      → ((at : Timestamp) → P (record patched { status = to; updated_at = at }))
      → Fills (
          (transition env r to patched >>= λ updated.
          audit env event updated (detail updated) >> return updated)
            w)
  unfolding transition audit assert_valid_transition
  transition-Fills env r patched to event detail w h =
      let at = iso (env.clock w.clock_reads) in
      elim (Bool-cases (can_move r.status to)) [
        | inr refused ↦ rw refused tt
        | inl allowed ↦
            elim (Result-cases (update (record patched { status = to; updated_at = at }) w.store)) [
              | inr (e, thrown) ↦ rw (allowed, thrown) tt
              | inl (m, stored) ↦ rw (allowed, stored) (h at)
            ]
      ]

  given-Fills :
      (env : Env) (given : Option Timestamp) (f : Timestamp → Lm Num S (TradeLifecycleRecord Num))
      (w : World Num S)
      → ((t : Timestamp) (w' : World Num S) → Fills (f t w'))
      → Fills ((given_or_now env given >>= f) w)
  given-Fills env (some t) f w h = h t w
  given-Fills env none f w h = h _ _

  lift-Fills :
      {A : Type 0} (x : Result (LifecycleError Num) A) (f : A → Lm Num S (TradeLifecycleRecord Num))
      (w : World Num S)
      → ((a : A) → Fills (f a w))
      → Fills ((lift x >>= f) w)
  lift-Fills (ok a) f w h = h a
  lift-Fills (err e) f w h = tt

module _ {Num S : Type 0} ⦃num : Numbers Num⦄ (env : Env) where
  pub record_opened-HasEntry :
      (r : TradeLifecycleRecord Num) (input : RecordOpenedInput Num) (w : World Num S)
      → Returns
          (λ r' w'. HasEntry input.entry_price input.broker_order_id input.broker_position_id r')
          (record_opened env r input w)
  unfolding record_opened
  record_opened-HasEntry r input w =
      given-Fills (HasEntry input.entry_price input.broker_order_id input.broker_position_id) env
        input.opened_at _ w
        λ opened_at w'.
          transition-Fills
            (HasEntry input.entry_price input.broker_order_id input.broker_position_id) env r
            (record r {
              entry_price = some input.entry_price;
              broker_order_id = some input.broker_order_id;
              broker_position_id = input.broker_position_id;
              opened_at = some opened_at;
            })
            open_status AuditEventType.trade_opened
            (λ updated.
              LifecycleDetail.opened input.entry_price input.broker_order_id
                input.broker_position_id updated.side updated.quantity updated.sizing_mode
                updated.stop_loss updated.take_profit opened_at)
            w' (λ at. (refl, refl, refl))

  pub record_risk_rejected-decision :
      (r : TradeLifecycleRecord Num) (decision : PortfolioRiskDecision Num) (w : World Num S)
      → Returns
          (λ r' w'. r'.portfolio_risk_decision ≡ some decision)
          (record_risk_rejected env r decision w)
  unfolding record_risk_rejected
  record_risk_rejected-decision r decision w =
      transition-Fills (λ r'. r'.portfolio_risk_decision ≡ some decision) env r
        (record r { portfolio_risk_decision = some decision }) risk_rejected
        AuditEventType.trade_risk_rejected
        (λ _. LifecycleDetail.risk_rejected (blocked_reasons decision)) w (λ at. refl)

  close_opened-HasExit :
      (r : TradeLifecycleRecord Num) (input : RecordClosedInput Num) (entry_price : Num)
      (opened_at : Timestamp) (w : World Num S)
      → Returns
          (λ r' w'. HasExit input.exit_price input.exit_reason r')
          (close_opened env r input entry_price opened_at w)
  unfolding close_opened
  close_opened-HasExit r input entry_price opened_at w =
      given-Fills Q env input.closed_at _ w λ closed_at w'.
        lift-Fills Q
          (calculate_realised_pnl r.sizing_mode r.side entry_price input.exit_price r.quantity) _ w'
          λ realised.
            lift-Fills Q
              (calculate_realised_pnl_percent r.sizing_mode r.side entry_price input.exit_price
                r.quantity)
              _ w'
              λ percent.
                lift-Fills Q (calculate_holding_duration_ms opened_at closed_at) _ w' λ duration.
                  transition-Fills Q env r
                    (record r {
                      exit_price = some input.exit_price;
                      exit_reason = some input.exit_reason;
                      closed_at = some closed_at;
                      realised_pnl = some realised;
                      realised_pnl_percent = some percent;
                      holding_duration_ms = some duration;
                    })
                    closed AuditEventType.trade_closed
                    (λ updated.
                      LifecycleDetail.closed r.entry_price input.exit_price input.exit_reason
                        realised percent duration updated.broker_position_id closed_at)
                    w' (λ at. (refl, refl))
    where
      Q : TradeLifecycleRecord Num → Type 0
      Q = HasExit input.exit_price input.exit_reason

  pub record_closed-HasExit :
      (r : TradeLifecycleRecord Num) (input : RecordClosedInput Num) (w : World Num S)
      → Returns
          (λ r' w'. HasExit input.exit_price input.exit_reason r')
          (record_closed env r input w)
  unfolding record_closed close_if_opened
  record_closed-HasExit r input w = go r.entry_price r.opened_at
    where
      go :
          (entry_price : Option Num) (opened_at : Option Timestamp)
          → Returns
              (λ r' w'. HasExit input.exit_price input.exit_reason r')
              (close_if_opened env r input entry_price opened_at w)
      go (some entry_price) (some opened_at) = close_opened-HasExit r input entry_price opened_at w
      go (some entry_price) none = tt
      go none opened_at = tt
