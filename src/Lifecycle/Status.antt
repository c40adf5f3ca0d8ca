-- ===== src/Lifecycle/Status.antt =====
-- trade-lifecycle/types.ts: the statuses of a trade and the transitions between them.
pub mod Paths
use trading_intelligence.Common.{Bool, true, false, List, [], ◌∷◌, ite}

pub data TradeLifecycleStatus : Type 0 where
  decision_created risk_rejected approved execution_submitted open_status : TradeLifecycleStatus
  close_requested closed execution_failed close_failed : TradeLifecycleStatus
  closed_unreconciled execution_abandoned execution_reconciliation_required : TradeLifecycleStatus

unfoldable pub status_discrete : Discrete TradeLifecycleStatus
status_discrete = hlevel

-- `xs.includes(s)`, and `new Set(xs).has(s)`
unfoldable pub includes : List TradeLifecycleStatus → TradeLifecycleStatus → Bool
unfolding status_discrete
includes [] s = false
includes (x ∷ xs) s = ite (status_discrete x s) true (includes xs s)

unfoldable pub valid_transitions : TradeLifecycleStatus → List TradeLifecycleStatus
valid_transitions decision_created =
    risk_rejected ∷ approved ∷ execution_abandoned ∷ execution_reconciliation_required ∷ []
valid_transitions risk_rejected = []
valid_transitions approved =
    execution_submitted ∷ execution_abandoned ∷ execution_reconciliation_required ∷ []
valid_transitions execution_submitted =
    open_status ∷ execution_failed ∷ execution_abandoned ∷ execution_reconciliation_required ∷ []
valid_transitions open_status = close_requested ∷ closed_unreconciled ∷ []
valid_transitions close_requested = closed ∷ close_failed ∷ closed_unreconciled ∷ []
valid_transitions closed = []
valid_transitions execution_failed = []
valid_transitions close_failed = open_status ∷ closed_unreconciled ∷ []
valid_transitions closed_unreconciled = []
valid_transitions execution_abandoned = []
valid_transitions execution_reconciliation_required = open_status ∷ execution_abandoned ∷ []

unfoldable pub can_move : TradeLifecycleStatus → TradeLifecycleStatus → Bool
unfolding includes valid_transitions
can_move from to = includes (valid_transitions from) to

-- confirmed-entry-count.ts: the statuses that prove that the trade was open.
unfoldable pub ever_reached_open_statuses : List TradeLifecycleStatus
ever_reached_open_statuses =
    open_status ∷ close_requested ∷ closed ∷ close_failed ∷ closed_unreconciled ∷ []

-- trade-lifecycle-store.ts
unfoldable pub open_statuses : List TradeLifecycleStatus
open_statuses = open_status ∷ close_requested ∷ []

unfoldable pub active_broker_position_statuses : List TradeLifecycleStatus
active_broker_position_statuses =
    open_status ∷ close_requested ∷ close_failed ∷ execution_reconciliation_required ∷ []

unfoldable pub active_strategy_instrument_statuses : List TradeLifecycleStatus
active_strategy_instrument_statuses =
    decision_created ∷ approved ∷ execution_submitted ∷ open_status ∷ close_requested ∷ close_failed
    ∷ execution_reconciliation_required ∷ []
