-- ===== src/Runtime/Recovery/Sweep.antt =====
-- The recovery sweep as a whole: at most one record is stale, and it is settled.
use trading_intelligence.Common.{ℕ, ◌-◌, String, Bool, ◌&&◌, ◌≡◌, ◌⊎◌, [], ◌∷◌, none, some, ◌==◌}
use trading_intelligence.Common.Dict.{get}
use trading_intelligence.Common.Time.{iso}
use trading_intelligence.Lifecycle.Record.{TradeLifecycleRecord}
use trading_intelligence.Lifecycle.Status.{includes}
use trading_intelligence.Lifecycle.Store.{Store, updated_by}
use trading_intelligence.Runtime.Recovery.{
  pre_open_recoverable_statuses, list_stale, RecoveryContext,
}
use trading_intelligence.Runtime.Recovery.Writes.{IsStale, IsRecoverable}

module _ {Num : Type 0} where
  -- A record in front of OPEN has no broker position yet.
  abbrev pub IsUnplaced : Store Num → Type 0
  IsUnplaced m =
      (k : String) (r : TradeLifecycleRecord Num)
      → get k m ≡ some r
      → IsRecoverable r.status
      → r.broker_position_id ≡ none

  -- What makes a record stale.
  abbrev is_stale : RecoveryContext Num → ℕ → TradeLifecycleRecord Num → Bool
  is_stale ctx threshold r =
      (r.strategy_id == ctx.sweep.strategy.strategy_id)
      && ((r.symbol == ctx.sweep.instrument)
          && (includes pre_open_recoverable_statuses r.status
              && updated_by (iso (ctx.sweep.now - threshold)) r.updated_at))

  abbrev pub AtMostOne : RecoveryContext Num → ℕ → Store Num → Type 0
  AtMostOne ctx threshold m =
      (list_stale ctx threshold m ≡ [])
      ⊎ ((r : TradeLifecycleRecord Num) × IsStale r m × (list_stale ctx threshold m ≡ r ∷ []))
