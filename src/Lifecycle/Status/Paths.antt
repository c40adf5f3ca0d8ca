-- ===== src/Lifecycle/Status/Paths.antt =====
-- Where a trade can come from and go to along the transition table.
use trading_intelligence.Common.{true, false, ◌≡◌, refl, arith, ◌↔◌, inl, inr, Bool-cases, ◌⊎◌}
use trading_intelligence.Lifecycle.Status.{
  TradeLifecycleStatus, decision_created, risk_rejected, approved, execution_submitted, open_status,
  close_requested, closed, execution_failed, close_failed, closed_unreconciled, execution_abandoned,
  execution_reconciliation_required, can_move, includes, ever_reached_open_statuses,
  active_strategy_instrument_statuses,
}

-- Any number of valid transitions, one after the other.
pub data Moves (s : TradeLifecycleStatus) : TradeLifecycleStatus → Type 0 where
  here : Moves s s
  next : {t u : TradeLifecycleStatus} → Moves s t → can_move t u ≡ true → Moves s u

abbrev pub EverOpen : TradeLifecycleStatus → Type 0
EverOpen s = includes ever_reached_open_statuses s ≡ true

-- Only OPEN is entered from a status that does not prove that the trade was open.
first_open :
    (t u : TradeLifecycleStatus)
    → can_move t u ≡ true
    → includes ever_reached_open_statuses t ≡ false
    → EverOpen u
    → u ≡ open_status
unfolding can_move includes ever_reached_open_statuses
first_open t u m before after = ground arith

-- The path stands in the status, at its start, on its way or at its end.
abbrev pub Visits : {s t : TradeLifecycleStatus} → Moves s t → TradeLifecycleStatus → Type 0
Visits {s = s} here u = s ≡ u
Visits (next {u = x} path step) u = (x ≡ u) ⊎ Visits path u

-- Each path of valid transitions from a status in which the trade was never open to one that proves it
-- was (OPEN, CLOSE_REQUESTED, CLOSED, CLOSE_FAILED, CLOSED_UNRECONCILED) stands in OPEN on its way.
pub Moves-through_open :
    (s t : TradeLifecycleStatus)
    → includes ever_reached_open_statuses s ≡ false
    → EverOpen t
    → (path : Moves s t) → Visits path open_status
Moves-through_open s t before after here = absurd (ground arith)
Moves-through_open s t before after (next {t = r} path step) =
    elim (Bool-cases (includes ever_reached_open_statuses r)) [
      | inl was ↦ inr (Moves-through_open s r before was path)
      | inr not_yet ↦ inl (first_open r t step not_yet after)
    ]

exit_of_active :
    (s : TradeLifecycleStatus)
    → includes active_strategy_instrument_statuses s ≡ true
    → (t : TradeLifecycleStatus) × (can_move s t ≡ true)
unfolding can_move active_strategy_instrument_statuses
exit_of_active decision_created h = (approved, refl)
exit_of_active approved h = (execution_submitted, refl)
exit_of_active execution_submitted h = (open_status, refl)
exit_of_active open_status h = (close_requested, refl)
exit_of_active close_requested h = (closed, refl)
exit_of_active close_failed h = (open_status, refl)
exit_of_active execution_reconciliation_required h = (open_status, refl)
exit_of_active _ h = cc

active_of_exit :
    (s t : TradeLifecycleStatus)
    → can_move s t ≡ true
    → includes active_strategy_instrument_statuses s ≡ true
unfolding can_move active_strategy_instrument_statuses
active_of_exit risk_rejected t m = cc
active_of_exit closed t m = cc
active_of_exit execution_failed t m = cc
active_of_exit closed_unreconciled t m = cc
active_of_exit execution_abandoned t m = cc
active_of_exit _ t m = refl

-- A strategy's slot on an instrument is held exactly by the statuses that can still move.
pub active_iff_can_move :
    (s : TradeLifecycleStatus)
    → (includes active_strategy_instrument_statuses s ≡ true)
      ↔ ((t : TradeLifecycleStatus) × (can_move s t ≡ true))
active_iff_can_move s = (exit_of_active s, λ (t, m). active_of_exit s t m)
