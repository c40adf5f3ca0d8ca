-- ===== src/Runtime/Recovery/Resolution.antt =====
-- What becomes of a stale record that no order was sent for.
use trading_intelligence.Common.{
  String, Bool, true, false, ◌≡◌, ◌≢◌, refl, ◌⊎◌, List, [], ◌∷◌, Option, none, some, Result, ok,
  err, ◌==◌, filter, inl, inr,
}
use trading_intelligence.Domain.Orders.{PaperPosition}
use trading_intelligence.Lifecycle.Errors.{LifecycleError}
use trading_intelligence.Lifecycle.Record.{TradeLifecycleRecord}
use trading_intelligence.Runtime.Sweeps.{SweepBroker, RawPortfolioPosition, WorldOf, Shows}
use trading_intelligence.Runtime.Recovery.{
  is_pre_submission, recover_pre_submission_record, after_open_positions, look_up_order,
  after_order_lookup, look_up_by, check_unexpected, abandon, mark_ambiguous, RecoveryContext,
}
use trading_intelligence.Runtime.Recovery.Writes.{
  IsStale, Refused, Flags, Abandons, Correlates, Does, Unclaimed, abandon-Abandons,
  mark_ambiguous-Flags,
}
use trading_intelligence.Runtime.Recovery.Evidence.{NoTrace, NoOrder, OrderInDoubt, InDoubt}

module _ {Num B : Type 0} (broker : SweepBroker Num B) (ctx : RecoveryContext Num) where
  module _ (r : TradeLifecycleRecord Num) (w : WorldOf Num B) (b : B) where
    -- The record is kept for review, given up on evidence, or opened with the one position that the
    -- broker shows; only a broker's adoption of that position and a trail that refuses the event may
    -- throw, and then nothing is written.
    abbrev pub Resolves : Result (LifecycleError Num) (Unit {0}) × WorldOf Num B → Type 0
    Resolves (ok u, w') =
        (Flags ctx r w w' × InDoubt broker ctx r w.store b)
        ⊎ ((Abandons ctx r w w' × NoTrace broker ctx r w.store b)
            ⊎ ((raw : RawPortfolioPosition Num) × (open_rate : Num) × (raw.open_rate
                  ≡ some open_rate)
                × (is_pre_submission r.status ≡ false)
                × Shows broker ctx.sweep b (raw ∷ [])
                × Unclaimed r w.store raw
                × Correlates ctx r w raw open_rate w'))
    Resolves (err e, w') =
        ((broker.adopt_position ≢ none) × (w'.store ≡ w.store) × (w'.audit ≡ w.audit))
        ⊎ Refused ctx r w e w'

    pub flags :
        (x : Result (LifecycleError Num) (Unit {0}) × WorldOf Num B)
        → InDoubt broker ctx r w.store b
        → Does ctx r w (Flags ctx r w) x
        → Resolves x
    flags (ok u, w') doubt h = inl (h, doubt)
    flags (err e, w') doubt h = inr h

    pub gives_up :
        (x : Result (LifecycleError Num) (Unit {0}) × WorldOf Num B)
        → NoTrace broker ctx r w.store b
        → Does ctx r w (Abandons ctx r w) x
        → Resolves x
    gives_up (ok u, w') e h = inr (inl (h, e))
    gives_up (err e, w') _ h = inr h

  module _ (r : TradeLifecycleRecord Num) where
    after_order_lookup-Resolves :
        (w : WorldOf Num B) (b : B) (order_id : String) (found : Result String Bool)
        → IsStale r w.store
        → (found ≡ ok false → NoTrace broker ctx r w.store b)
        → (found ≢ ok false → InDoubt broker ctx r w.store b)
        → Resolves r w b (after_order_lookup broker ctx r order_id found w)
    unfolding after_order_lookup
    after_order_lookup-Resolves w b order_id (ok true) stale gone doubt =
        flags r w b (mark_ambiguous ctx r _ w) (doubt (λ e. absurd cc))
          (mark_ambiguous-Flags ctx r w stale _)
    after_order_lookup-Resolves w b order_id (ok false) stale gone doubt =
        gives_up r w b (abandon ctx r _ w) (gone refl) (abandon-Abandons ctx r w stale _)
    after_order_lookup-Resolves w b order_id (err e) stale gone doubt =
        flags r w b (mark_ambiguous ctx r _ w) (doubt (λ f. absurd cc))
          (mark_ambiguous-Flags ctx r w stale _)

    look_up_by-Resolves :
        (w : WorldOf Num B) (look_up : Option (String → B → Result String Bool × B))
        (order : Option String)
        → broker.get_order_status ≡ look_up
        → r.broker_order_id ≡ order
        → IsStale r w.store
        → (NoOrder broker ctx r w.broker.broker → NoTrace broker ctx r w.store w.broker.broker)
        → (OrderInDoubt broker ctx r w.broker.broker → InDoubt broker ctx r w.store w.broker.broker)
        → Resolves r w w.broker.broker (look_up_by broker ctx r look_up order w)
    unfolding look_up_by
    look_up_by-Resolves w (some look_up) (some order_id) can named stale gone doubt =
        after_order_lookup-Resolves
          (record w { broker = record w.broker { broker = (look_up order_id w.broker.broker).1 } })
          w.broker.broker order_id (look_up order_id w.broker.broker).0 stale
          (λ none_there. gone (inr (inr (look_up, order_id, can, named, none_there))))
          (λ other. doubt (look_up, order_id, can, named, other))
    look_up_by-Resolves w none order can named stale gone doubt =
        gives_up r w w.broker.broker (abandon ctx r _ w) (gone (inl can))
          (abandon-Abandons ctx r w stale _)
    look_up_by-Resolves w (some look_up) none can named stale gone doubt =
        gives_up r w w.broker.broker (abandon ctx r _ w) (gone (inr (inl named)))
          (abandon-Abandons ctx r w stale _)

    check_unexpected-Resolves :
        (w : WorldOf Num B) (unexpected : List (PaperPosition Num))
        → IsStale r w.store
        → (unexpected ≡ []
            → NoOrder broker ctx r w.broker.broker
            → NoTrace broker ctx r w.store w.broker.broker)
        → ((unexpected ≢ []) ⊎ OrderInDoubt broker ctx r w.broker.broker
            → InDoubt broker ctx r w.store w.broker.broker)
        → Resolves r w w.broker.broker (check_unexpected broker ctx r unexpected w)
    unfolding check_unexpected look_up_order
    check_unexpected-Resolves w [] stale gone doubt =
        look_up_by-Resolves w broker.get_order_status r.broker_order_id refl refl stale (gone refl)
          (λ order. doubt (inr order))
    check_unexpected-Resolves w (p ∷ ps) stale gone doubt =
        flags r w w.broker.broker (mark_ambiguous ctx r _ w) (doubt (inl (λ e. absurd cc)))
          (mark_ambiguous-Flags ctx r w stale _)

    pub recover_pre_submission-Resolves :
        (w : WorldOf Num B)
        → IsStale r w.store
        → is_pre_submission r.status ≡ true
        → Resolves r w w.broker.broker (recover_pre_submission_record broker ctx r w)
    unfolding recover_pre_submission_record
    recover_pre_submission-Resolves w stale early =
        go (broker.get_open_positions w.broker.broker) refl
      where
        go :
            (x : Result String (List (PaperPosition Num)))
            → broker.get_open_positions w.broker.broker ≡ x
            → Resolves r w w.broker.broker (after_open_positions broker ctx r x w)
        go (err e) at =
            flags r w w.broker.broker (mark_ambiguous ctx r _ w) (inl (early, inl (inl (e, at))))
              (mark_ambiguous-Flags ctx r w stale _)
        go (ok positions) at =
            check_unexpected-Resolves w
              (filter (λ p. p.instrument == ctx.sweep.instrument) positions) stale
              (λ none_left no_order. inl (early, (positions, at, none_left), no_order))
              (λ doubt. elim doubt [
                | inl some_left ↦ inl (early, inl (inr (positions, at, some_left)))
                | inr order ↦ inl (early, inr order)
              ])
