-- ===== src/Runtime/Recovery/Portfolio.antt =====
-- What becomes of a stale record that an order may have been sent for.
use trading_intelligence.Common.{
  ℕ, String, false, not, ◌≡◌, refl, List, [], ◌∷◌, Option, none, some, Result, continue, ◌>>◌, ok,
  err, ◌==◌, find, inl, inr,
}
use trading_intelligence.Domain.Orders.{InternalStrategy}
use trading_intelligence.Lifecycle.Errors.{LifecycleError}
use trading_intelligence.Lifecycle.Record.{TradeLifecycleRecord}
use trading_intelligence.Lifecycle.Store.{find_lifecycle_records_by_broker_position_id}
use trading_intelligence.Runtime.Sweeps.{
  SweepBroker, RawPortfolioPosition, broker_position_id_of, of_instrument, adopt_if_possible,
  WorldOf, Shows, adopt_by, or_throw,
}
use trading_intelligence.Runtime.Recovery.{
  is_pre_submission, resolve_with, correlate_with, resolve_claim, after_resolution, after_portfolio,
  resolve_matches, resolve_single, abandon, mark_ambiguous, correlate, RecoveryContext,
}
use trading_intelligence.Runtime.Recovery.Writes.{
  IsStale, Correlates, Does, Unclaimed, abandon-Abandons, mark_ambiguous-Flags,
  correlate-Correlates,
}
use trading_intelligence.Runtime.Recovery.Resolution.{Resolves, flags, gives_up}

module _ {Num B : Type 0} (broker : SweepBroker Num B) (ctx : RecoveryContext Num) where
  module _ (r : TradeLifecycleRecord Num) where
    opens :
        (w : WorldOf Num B) (b : B) (raw : RawPortfolioPosition Num) (open_rate : Num)
        (x : Result (LifecycleError Num) (Unit {0}) × WorldOf Num B)
        → raw.open_rate ≡ some open_rate
        → is_pre_submission r.status ≡ false
        → Shows broker ctx.sweep b (raw ∷ [])
        → Unclaimed r w.store raw
        → Does ctx r w (Correlates ctx r w raw open_rate) x
        → Resolves broker ctx r w b x
    opens w b raw open_rate (ok u, w') at late shown free h =
        inr (inr (raw, open_rate, at, late, shown, free, h))
    opens w b raw open_rate (err e, w') at late shown free h = inr h

    adopt_then_correlate-Resolves :
        (w : WorldOf Num B) (b : B) (raw : RawPortfolioPosition Num) (open_rate : Num)
        (adopt : Option (
          RawPortfolioPosition Num
          → String
          → InternalStrategy Num
          → B
          → Result String (Unit {0}) × B))
        → broker.adopt_position ≡ adopt
        → IsStale r w.store
        → raw.open_rate ≡ some open_rate
        → is_pre_submission r.status ≡ false
        → Shows broker ctx.sweep b (raw ∷ [])
        → Unclaimed r w.store raw
        → Resolves broker ctx r w b
            ((adopt_by adopt ctx.sweep raw >> correlate ctx r raw open_rate) w)
    unfolding adopt_by
    adopt_then_correlate-Resolves w b raw open_rate none a stale at late shown free =
        opens w b raw open_rate (correlate ctx r raw open_rate w) at late shown free
          (correlate-Correlates ctx r w stale raw open_rate late free)
    adopt_then_correlate-Resolves w b raw open_rate (some adopt) a stale at late shown free =
        go (adopt raw ctx.sweep.instrument ctx.sweep.strategy w.broker.broker)
      where
        go :
            (y : Result String (Unit {0}) × B)
            → Resolves broker ctx r w b (
                continue
                  (λ _. correlate ctx r raw open_rate)
                  (or_throw y.0 (record w { broker = record w.broker { broker = y.1 } })))
        go (ok u, after) =
            opens w b raw open_rate
              (correlate ctx r raw open_rate
                (record w { broker = record w.broker { broker = after } }))
              at late shown free
              (correlate-Correlates ctx r (record w { broker = record w.broker { broker = after } })
                stale raw open_rate late free)
        go (err e, after) = inl (λ none_there. cc (a, none_there), refl, refl)

    correlate_with-Resolves :
        (w : WorldOf Num B) (b : B) (raw : RawPortfolioPosition Num) (amount rate : Option Num)
        → IsStale r w.store
        → raw.amount ≡ amount
        → raw.open_rate ≡ rate
        → is_pre_submission r.status ≡ false
        → Shows broker ctx.sweep b (raw ∷ [])
        → Unclaimed r w.store raw
        → Resolves broker ctx r w b (correlate_with broker ctx r raw amount rate w)
    unfolding correlate_with adopt_if_possible
    correlate_with-Resolves w b raw (some amount) (some rate) stale sized at late shown free =
        adopt_then_correlate-Resolves w b raw rate broker.adopt_position refl stale at late shown
          free
    correlate_with-Resolves w b raw none rate stale sized at late shown free =
        flags broker ctx r w b (mark_ambiguous ctx r _ w)
          (inr (late, inr (inr (raw, shown, free, inl sized))))
          (mark_ambiguous-Flags ctx r w stale _)
    correlate_with-Resolves w b raw (some amount) none stale sized at late shown free =
        flags broker ctx r w b (mark_ambiguous ctx r _ w)
          (inr (late, inr (inr (raw, shown, free, inr at)))) (mark_ambiguous-Flags ctx r w stale _)

    resolve_claim-Resolves :
        (w : WorldOf Num B) (b : B) (raw : RawPortfolioPosition Num)
        (claim : Option (TradeLifecycleRecord Num))
        → find
            (λ s. not (s.id == r.id))
            (find_lifecycle_records_by_broker_position_id (broker_position_id_of raw) w.store)
          ≡ claim
        → IsStale r w.store
        → is_pre_submission r.status ≡ false
        → Shows broker ctx.sweep b (raw ∷ [])
        → Resolves broker ctx r w b (resolve_claim broker ctx r raw claim w)
    unfolding resolve_claim
    resolve_claim-Resolves w b raw (some other) at stale late shown =
        gives_up broker ctx r w b (abandon ctx r _ w) (inr (late, inr (raw, shown, (other, at))))
          (abandon-Abandons ctx r w stale _)
    resolve_claim-Resolves w b raw none at stale late shown =
        correlate_with-Resolves w b raw raw.amount raw.open_rate stale refl refl late shown at

    resolve_matches-Resolves :
        (w : WorldOf Num B) (b : B) (raws : List (RawPortfolioPosition Num))
        → IsStale r w.store
        → is_pre_submission r.status ≡ false
        → Shows broker ctx.sweep b raws
        → Resolves broker ctx r w b (resolve_matches broker ctx r raws w)
    unfolding resolve_matches resolve_single
    resolve_matches-Resolves w b [] stale late shown =
        gives_up broker ctx r w b (abandon ctx r _ w) (inr (late, inl shown))
          (abandon-Abandons ctx r w stale _)
    resolve_matches-Resolves w b (raw ∷ []) stale late shown =
        resolve_claim-Resolves w b raw
          (find (λ s. not (s.id == r.id))
            (find_lifecycle_records_by_broker_position_id (broker_position_id_of raw) w.store))
          refl stale late shown
    resolve_matches-Resolves w b (raw ∷ raw' ∷ raws) stale late shown =
        flags broker ctx r w b (mark_ambiguous ctx r _ w)
          (inr (late, inr (inl (raw, raw', raws, shown)))) (mark_ambiguous-Flags ctx r w stale _)

    pub resolve_with-Resolves :
        (w : WorldOf Num B)
        (read : Option (B → Result String (List (RawPortfolioPosition Num)) × B))
        (resolve : Option (String → B → Result String ℕ × B))
        → broker.get_raw_portfolio ≡ read
        → broker.resolve_instrument ≡ resolve
        → IsStale r w.store
        → is_pre_submission r.status ≡ false
        → Resolves broker ctx r w w.broker.broker (resolve_with broker ctx r read resolve w)
    unfolding resolve_with after_resolution after_portfolio
    resolve_with-Resolves w none resolve can_read can_resolve stale late =
        flags broker ctx r w w.broker.broker (mark_ambiguous ctx r _ w)
          (inr (
            late,
            inl (λ raws (resolve', read', i, seen, has_resolve, has_read, at, said, these).
                absurd cc),
          ))
          (mark_ambiguous-Flags ctx r w stale _)
    resolve_with-Resolves w (some read) none can_read can_resolve stale late =
        flags broker ctx r w w.broker.broker (mark_ambiguous ctx r _ w)
          (inr (
            late,
            inl (λ raws (resolve', read', i, seen, has_resolve, has_read, at, said, these).
                absurd cc),
          ))
          (mark_ambiguous-Flags ctx r w stale _)
    resolve_with-Resolves w (some read) (some resolve) can_read can_resolve stale late =
        resolved (resolve ctx.sweep.instrument w.broker.broker).0 refl
      where
        there : B → WorldOf Num B
        there b = record w { broker = record w.broker { broker = b } }

        answered : B
        answered = (resolve ctx.sweep.instrument w.broker.broker).1

        portfolio :
            (id : ℕ) (x : Result String (List (RawPortfolioPosition Num)))
            → (resolve ctx.sweep.instrument w.broker.broker).0 ≡ ok id
            → (read answered).0 ≡ x
            → Resolves broker ctx r w w.broker.broker
                (after_portfolio broker ctx r id x (there (read answered).1))
        portfolio id (err e) at seen =
            flags broker ctx r w w.broker.broker (mark_ambiguous ctx r _ (there (read answered).1))
              (inr (
                late,
                inl (λ raws (resolve', read', i, shown, has_resolve, has_read, got, said, these).
                    let same : resolve ≡ resolve' = cc in
                    let same_read : read ≡ read' = cc in absurd cc),
              ))
              (mark_ambiguous-Flags ctx r (there (read answered).1) stale _)
        portfolio id (ok positions) at seen =
            resolve_matches-Resolves (there (read answered).1) w.broker.broker
              (of_instrument id positions) stale late
              (resolve, read, id, positions, can_resolve, can_read, at, seen, refl)

        resolved :
            (x : Result String ℕ)
            → (resolve ctx.sweep.instrument w.broker.broker).0 ≡ x
            → Resolves broker ctx r w w.broker.broker
                (after_resolution broker ctx r read x (there answered))
        resolved (err e) at =
            flags broker ctx r w w.broker.broker (mark_ambiguous ctx r _ (there answered))
              (inr (
                late,
                inl (λ raws (resolve', read', i, shown, has_resolve, has_read, got, said, these).
                    let same : resolve ≡ resolve' = cc in absurd cc),
              ))
              (mark_ambiguous-Flags ctx r (there answered) stale _)
        resolved (ok id) at = portfolio id (read answered).0 at refl
