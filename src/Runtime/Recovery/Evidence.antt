-- ===== src/Runtime/Recovery/Evidence.antt =====
-- On which evidence a stale record is given up, or kept for review.
use trading_intelligence.Common.{
  String, Bool, true, false, not, ◌≡◌, ◌≢◌, ◌⊎◌, List, [], ◌∷◌, none, some, Result, ok, err, ◌==◌,
  find, filter,
}
use trading_intelligence.Domain.Orders.{PaperPosition}
use trading_intelligence.Lifecycle.Record.{TradeLifecycleRecord}
use trading_intelligence.Lifecycle.Store.{Store, find_lifecycle_records_by_broker_position_id}
use trading_intelligence.Runtime.Sweeps.{
  SweepBroker, RawPortfolioPosition, broker_position_id_of, Shows,
}
use trading_intelligence.Runtime.Recovery.{is_pre_submission, RecoveryContext}
use trading_intelligence.Runtime.Recovery.Writes.{Unclaimed}

module _ {Num B : Type 0} (broker : SweepBroker Num B) (ctx : RecoveryContext Num) where
  -- The broker knows of no open position on the instrument.
  abbrev pub NoneOpen : B → Type 0
  NoneOpen b =
      (positions : List (PaperPosition Num)) × (broker.get_open_positions b ≡ ok positions)
      × (filter (λ p. p.instrument == ctx.sweep.instrument) positions ≡ [])

  abbrev pub ClaimedByAnother :
      TradeLifecycleRecord Num → Store Num → RawPortfolioPosition Num → Type 0
  ClaimedByAnother r m raw =
      (other : TradeLifecycleRecord Num) × (find (λ s. not (s.id == r.id))
          (find_lifecycle_records_by_broker_position_id (broker_position_id_of raw) m)
        ≡ some other)

  -- The broker reports no order of the record's order id: it has no order lookup, the record has no
  -- order id, or the lookup answers that there is none.
  abbrev pub NoOrder : TradeLifecycleRecord Num → B → Type 0
  NoOrder r b =
      (broker.get_order_status ≡ none)
      ⊎ ((r.broker_order_id ≡ none)
          ⊎ ((look_up : String → B → Result String Bool × B) × (order_id : String)
              × (broker.get_order_status ≡ some look_up)
              × (r.broker_order_id ≡ some order_id)
              × ((look_up order_id b).0 ≡ ok false)))

  -- Why a record may be given up: no order was sent, none is reported and nothing is open, or the broker shows no position,
  -- or it shows one that another record has.
  abbrev pub NoTrace : TradeLifecycleRecord Num → Store Num → B → Type 0
  NoTrace r m b =
      ((is_pre_submission r.status ≡ true) × NoneOpen b × NoOrder r b)
      ⊎ ((is_pre_submission r.status ≡ false)
          × (Shows broker ctx.sweep b []
              ⊎ ((raw : RawPortfolioPosition Num) × Shows broker ctx.sweep b (raw ∷ [])
                  × ClaimedByAnother r m raw)))

  -- The broker reports an order of the record's order id, or its lookup fails.
  abbrev pub OrderInDoubt : TradeLifecycleRecord Num → B → Type 0
  OrderInDoubt r b =
      (look_up : String → B → Result String Bool × B) × (order_id : String)
      × (broker.get_order_status ≡ some look_up)
      × (r.broker_order_id ≡ some order_id)
      × ((look_up order_id b).0 ≢ ok false)

  -- The broker's open positions cannot be read, or some are on the instrument.
  abbrev pub PositionsInDoubt : B → Type 0
  PositionsInDoubt b =
      ((e : String) × (broker.get_open_positions b ≡ err e))
      ⊎ ((positions : List (PaperPosition Num)) × (broker.get_open_positions b ≡ ok positions)
          × (filter (λ p. p.instrument == ctx.sweep.instrument) positions ≢ []))

  -- The broker shows no portfolio, more than one position, or a free one without entry data.
  abbrev pub PortfolioInDoubt : TradeLifecycleRecord Num → Store Num → B → Type 0
  PortfolioInDoubt r m b =
      ((raws : List (RawPortfolioPosition Num)) → ¬ Shows broker ctx.sweep b raws)
      ⊎ (((raw : RawPortfolioPosition Num) × (raw' : RawPortfolioPosition Num) × (raws : List
              (RawPortfolioPosition Num))
            × Shows broker ctx.sweep b (raw ∷ raw' ∷ raws))
          ⊎ ((raw : RawPortfolioPosition Num) × Shows broker ctx.sweep b (raw ∷ [])
              × Unclaimed r m raw
              × ((raw.amount ≡ none) ⊎ (raw.open_rate ≡ none))))

  -- Why a record is kept for review.
  abbrev pub InDoubt : TradeLifecycleRecord Num → Store Num → B → Type 0
  InDoubt r m b =
      ((is_pre_submission r.status ≡ true) × (PositionsInDoubt b ⊎ OrderInDoubt r b))
      ⊎ ((is_pre_submission r.status ≡ false) × PortfolioInDoubt r m b)
