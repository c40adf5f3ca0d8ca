-- ===== src/Runtime/Reconciliation/Outcome.antt =====
-- A reconciliation of runtime/position-reconciliation.ts as a whole.
use trading_intelligence.Common.{
  ℕ, suc, String, true, ◌≡◌, refl, subst, ◌∙◌, List, [], ◌∷◌, Option, none, some, Result, ok, err,
  continue, ◌>>=◌, ◌>>◌, ◌==◌, eq_refl, any, Bool-cases, Result-cases, inl, inr,
}
use trading_intelligence.Common.Dict.{get, get-set}
use trading_intelligence.Common.Numbers.{Numbers}
use trading_intelligence.Domain.Orders.{PaperPosition, OrderSizingMode, InternalStrategy}
use trading_intelligence.Lifecycle.Errors.{
  LifecycleError, broker_position_clash, strategy_instrument_clash,
}
use trading_intelligence.Lifecycle.Record.{TradeLifecycleRecord}
use trading_intelligence.Lifecycle.Status.{
  open_status, close_requested, execution_reconciliation_required, includes,
}
use trading_intelligence.Lifecycle.Store.{
  create, list_active_lifecycle_records, find_lifecycle_records_by_broker_position_id,
}
use trading_intelligence.Lifecycle.Store.Invariant.{IsUnique, create_inv}
use trading_intelligence.Lifecycle.World.{Env, draw_id, discovered}
use trading_intelligence.Domain.Audit.{AuditEventType}
use trading_intelligence.Common.Decimal.{decimal}
use trading_intelligence.Runtime.Sweeps.{
  SweepBroker, SweepContext, Sm, WorldOf, Shows, RawPortfolioPosition, record_sweep, or_throw,
  broker_position_id_of, adopt_by, adopt_if_possible, of_instrument,
}
use trading_intelligence.Runtime.Reconciliation.{
  ReconcileBrokerPositionResult, adopted_record, fail_reconciliation, fail_duplicate,
  local_active_position_statuses,
}
use trading_intelligence.Runtime.Reconciliation.Agreement.{
  Agrees, Active, LocalIs, broker_absent-Agrees,
}
use trading_intelligence.Runtime.Reconciliation.Positions.{
  after_create, store_adopted, adopt_orphan, by_records, with_position, by_matches, after_portfolio,
  after_resolution, by_open_positions, by_capabilities, by_local, reconcile_broker_position,
  open_positions,
}
use trading_intelligence.Runtime.Reconciliation.Registration.{
  found_by_position, with_existing-Agrees,
}

module _ {Num B : Type 0} ⦃num : Numbers Num⦄ (env : Env) (broker : SweepBroker Num B)
    (ctx : SweepContext Num) (mode : OrderSizingMode) where
  adopted_is_placed :
      (raw : RawPortfolioPosition Num) (id : String) (amount rate : Num)
      → (adopted_record ctx id mode raw amount rate).broker_position_id
        ≡ some (broker_position_id_of raw)
  unfolding adopted_record
  adopted_is_placed raw id amount rate = refl

  adopted_is_live :
      (raw : RawPortfolioPosition Num) (id : String) (amount rate : Num)
      → includes
          (open_status ∷ close_requested ∷ [])
          (adopted_record ctx id mode raw amount rate).status
        ≡ true
  unfolding adopted_record includes
  adopted_is_live raw id amount rate = refl

  after_create_keeps :
      (w : WorldOf Num B) (b : B) (raw : RawPortfolioPosition Num)
      (adopted : TradeLifecycleRecord Num) (e : LifecycleError Num)
      → Agrees broker ctx w b (after_create env broker ctx mode raw adopted (err e) w)
  unfolding after_create fail_duplicate record_sweep
  after_create_keeps w b raw adopted (broker_position_clash id) = refl
  after_create_keeps w b raw adopted (strategy_instrument_clash id) = refl
  after_create_keeps w b raw adopted _ = refl

  store_adopted-Agrees :
      (w : WorldOf Num B) (b : B) (raw : RawPortfolioPosition Num) (id : String) (amount rate : Num)
      → Shows broker ctx b (raw ∷ [])
      → Agrees broker ctx w b
          (store_adopted env broker ctx mode raw (adopted_record ctx id mode raw amount rate) w)
  unfolding store_adopted after_create record_sweep
  store_adopted-Agrees w b raw id amount rate shown =
      let adopted : TradeLifecycleRecord Num = adopted_record ctx id mode raw amount rate in
      elim (Result-cases (create adopted w.store)) [
        | inr (e, thrown) ↦ rw thrown (after_create_keeps w b raw adopted e)
        | inl (m, stored) ↦
            let (_, _, result) = create_inv adopted w.store m stored in
            rw stored (
              raw,
              shown,
              subst (λ s. get adopted.id s ≡ some adopted) result
                  (get-set adopted.id adopted.id adopted w.store ∙ rw (eq_refl adopted.id) refl),
              adopted_is_placed raw id amount rate,
              adopted_is_live raw id amount rate,
            )
      ]

  adopt_orphan-Agrees :
      (w : WorldOf Num B) (b : B) (raw : RawPortfolioPosition Num) (amount rate : Option Num)
      → Shows broker ctx b (raw ∷ [])
      → Agrees broker ctx w b (adopt_orphan env broker ctx mode raw amount rate w)
  unfolding adopt_orphan adopt_if_possible fail_reconciliation record_sweep
  adopt_orphan-Agrees w b raw none rate shown = refl
  adopt_orphan-Agrees w b raw (some amount) none shown = refl
  adopt_orphan-Agrees w b raw (some amount) (some rate) shown = by_adoption broker.adopt_position
    where
      there : B → WorldOf Num B
      there b' = record w { broker = record w.broker { broker = b' } }

      store_it : Sm Num B (ReconcileBrokerPositionResult Num)
      store_it = draw_id env >>= λ id.
          store_adopted env broker ctx mode raw (adopted_record ctx id mode raw amount rate)

      drawn : (b' : B) → Agrees broker ctx w b (store_it (there b'))
      drawn b' =
          store_adopted-Agrees (record (there b') { ids_drawn = suc w.ids_drawn }) b raw
            (env.new_id w.ids_drawn) amount rate shown

      answered :
          (y : Result String (Unit {0}) × B)
          → Agrees broker ctx w b (continue (λ _. store_it) (or_throw y.0 (there y.1)))
      answered (ok u, after) = drawn after
      answered (err e, after) = refl

      by_adoption :
          (adopt : Option (
            RawPortfolioPosition Num
            → String
            → InternalStrategy Num
            → B
            → Result String (Unit {0}) × B))
          → Agrees broker ctx w b ((adopt_by adopt ctx raw >> store_it) w)
      by_adoption none = drawn w.broker.broker
      by_adoption (some adopt) = answered (adopt raw ctx.instrument ctx.strategy w.broker.broker)

  by_records-Agrees :
      (w : WorldOf Num B) (b : B) (raw : RawPortfolioPosition Num)
      (records : List (TradeLifecycleRecord Num))
      → find_lifecycle_records_by_broker_position_id (broker_position_id_of raw) w.store ≡ records
      → IsUnique w.store
      → Shows broker ctx b (raw ∷ [])
      → Agrees broker ctx w b (by_records env broker ctx mode raw records w)
  unfolding by_records fail_duplicate record_sweep
  by_records-Agrees w b raw [] found u shown =
      adopt_orphan-Agrees w b raw raw.amount raw.open_rate shown
  by_records-Agrees w b raw (r ∷ []) found u shown =
      let (at, placed) = found_by_position w.store (broker_position_id_of raw) r u found in
      with_existing-Agrees broker ctx w b raw r shown at placed r.status refl
  by_records-Agrees w b raw (r ∷ s ∷ rs) found u shown = refl

  by_matches-Agrees :
      (w : WorldOf Num B) (b : B) (id : ℕ) (local : Option (TradeLifecycleRecord Num))
      (raws : List (RawPortfolioPosition Num))
      → IsUnique w.store
      → LocalIs broker ctx w b local
      → Shows broker ctx b raws
      → Agrees broker ctx w b (by_matches env broker ctx mode id local raws w)
  unfolding by_matches with_position fail_reconciliation record_sweep
  by_matches-Agrees w b id local [] u active shown =
      broker_absent-Agrees broker ctx w b local active (inl shown)
  by_matches-Agrees w b id local (raw ∷ []) u active shown =
      by_records-Agrees
        (record_sweep {B = B} ctx AuditEventType.broker_position_discovered
          (discovered (broker_position_id_of raw) (decimal raw.order_id) raw.amount raw.open_rate)
          w).1
        b raw _ refl u shown
  by_matches-Agrees w b id local (raw ∷ raw' ∷ raws) u active shown = refl

  -- On the word of a broker without a portfolio.
  by_list-Agrees :
      (w : WorldOf Num B) (local : Option (TradeLifecycleRecord Num))
      → LocalIs broker ctx w w.broker.broker local
      → Agrees broker ctx w w.broker.broker
          ((open_positions broker ctx >>= by_open_positions env broker ctx mode local) w)
  unfolding by_open_positions
  by_list-Agrees w local active = listed (broker.get_open_positions w.broker.broker) refl
    where
      listed :
          (x : Result String (List (PaperPosition Num)))
          → broker.get_open_positions w.broker.broker ≡ x
          → Agrees broker ctx w w.broker.broker
              (continue (by_open_positions env broker ctx mode local) (or_throw x w))
      listed (err e) at = refl
      listed (ok positions) at =
          elim (Bool-cases (any (λ p. p.instrument == ctx.instrument) positions)) [
            | inl there ↦ rw there (refl, inr (positions, at, there))
            | inr absent ↦ rw absent (
                broker_absent-Agrees broker ctx w w.broker.broker local active
                  (inr (positions, at, absent)))
          ]

  by_capabilities-Agrees :
      (w : WorldOf Num B) (local : Option (TradeLifecycleRecord Num))
      (read : Option (B → Result String (List (RawPortfolioPosition Num)) × B))
      (resolve : Option (String → B → Result String ℕ × B))
      → broker.get_raw_portfolio ≡ read
      → broker.resolve_instrument ≡ resolve
      → IsUnique w.store
      → LocalIs broker ctx w w.broker.broker local
      → Agrees broker ctx w w.broker.broker
          (by_capabilities env broker ctx mode local read resolve w)
  unfolding by_capabilities after_resolution after_portfolio by_open_positions fail_reconciliation
      record_sweep
  by_capabilities-Agrees w local (some read) (some resolve) can_read can_resolve u active =
      resolved (resolve ctx.instrument w.broker.broker).0 refl
    where
      there : B → WorldOf Num B
      there b' = record w { broker = record w.broker { broker = b' } }

      answered : B
      answered = (resolve ctx.instrument w.broker.broker).1

      portfolio :
          (id : ℕ) (x : Result String (List (RawPortfolioPosition Num)))
          → (resolve ctx.instrument w.broker.broker).0 ≡ ok id
          → (read answered).0 ≡ x
          → Agrees broker ctx w w.broker.broker
              (after_portfolio env broker ctx mode id local x (there (read answered).1))
      portfolio id (err e) at seen = refl
      portfolio id (ok positions) at seen =
          by_matches-Agrees (there (read answered).1) w.broker.broker id local
            (of_instrument id positions) u active
            (resolve, read, id, positions, can_resolve, can_read, at, seen, refl)

      resolved :
          (x : Result String ℕ)
          → (resolve ctx.instrument w.broker.broker).0 ≡ x
          → Agrees broker ctx w w.broker.broker
              (after_resolution env broker ctx mode read local x (there answered))
      resolved (err e) at = refl
      resolved (ok id) at = portfolio id (read answered).0 at refl
  by_capabilities-Agrees w local none resolve can_read can_resolve u active =
      by_list-Agrees w local active
  by_capabilities-Agrees w local (some read) none can_read can_resolve u active =
      by_list-Agrees w local active

  -- Whatever the broker answers, the result of a reconciliation over a store of unique records agrees
  -- with the broker and the store: a record that it returns stands in the store, is OPEN or
  -- CLOSE_REQUESTED and has the one position that the broker shows; "open" without a record is said only
  -- of a record that waits for review, or where a broker lists an open position; "not open" is said only
  -- where the broker has none, and leaves no record, or the one active record as CLOSED_UNRECONCILED; a
  -- refusal, or an error that is thrown, changes no record.
  pub reconcile_broker_position-Agrees :
      (w : WorldOf Num B)
      → IsUnique w.store
      → Agrees broker ctx w w.broker.broker (reconcile_broker_position env broker ctx mode w)
  unfolding reconcile_broker_position by_local fail_duplicate record_sweep
  reconcile_broker_position-Agrees w u =
      go
        (list_active_lifecycle_records ctx.strategy.strategy_id ctx.instrument
          local_active_position_statuses w.store)
        refl
    where
      go :
          (local : List (TradeLifecycleRecord Num))
          → Active broker ctx w.store local
          → Agrees broker ctx w w.broker.broker (by_local env broker ctx mode local w)
      go [] active =
          by_capabilities-Agrees w none broker.get_raw_portfolio broker.resolve_instrument refl refl
            u active
      go (r ∷ []) active =
          elim (Bool-cases (includes (execution_reconciliation_required ∷ []) r.status)) [
            | inl waits ↦ rw waits (refl, inl (r, active, waits))
            | inr other ↦ rw other (
                by_capabilities-Agrees w (some r) broker.get_raw_portfolio broker.resolve_instrument
                  refl refl u active)
          ]
      go (r ∷ s ∷ rs) active = refl
