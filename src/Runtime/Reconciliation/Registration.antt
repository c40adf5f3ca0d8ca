-- ===== src/Runtime/Reconciliation/Registration.antt =====
-- What is done with a position of a record: the adapter is told of it, and the record is kept or reopened.
use trading_intelligence.Common.{
  String, Bool, true, false, ◌≡◌, refl, sym, subst, ap, ◌∙◌, List, [], ◌∷◌, Option, none, some,
  Result, ok, err, continue, return, ◌>>=◌, eq_iff, eq_refl, All, All-filter, Result-cases, inl,
  inr, if◌then◌else◌,
}
use trading_intelligence.Common.Dict.{get, values, get-set, All-values}
use trading_intelligence.Domain.Orders.{PaperPosition, InternalStrategy}
use trading_intelligence.Lifecycle.Errors.{ReconciliationReason}
use trading_intelligence.Lifecycle.Record.{TradeLifecycleRecord}
use trading_intelligence.Lifecycle.Service.{assert_valid_transition}
use trading_intelligence.Lifecycle.Status.{
  TradeLifecycleStatus, open_status, close_requested, close_failed, includes, can_move,
}
use trading_intelligence.Lifecycle.Store.{
  Store, update, same_text, find_lifecycle_records_by_broker_position_id,
}
use trading_intelligence.Lifecycle.Store.Invariant.{IsUnique, update_inv}
use trading_intelligence.Runtime.Sweeps.{
  SweepBroker, SweepContext, WorldOf, Shows, RawPortfolioPosition, record_sweep, or_throw,
  broker_position_id_of, adopt_by,
}
use trading_intelligence.Runtime.Reconciliation.{Rm, reverted_record, fail_reconciliation}
use trading_intelligence.Runtime.Reconciliation.Agreement.{Agrees}
use trading_intelligence.Runtime.Reconciliation.Positions.{
  is_known, register_unknown, register_if_unknown, register_by, ensure_registered_with_broker,
  keep_open, write_reverted, reopen, with_existing,
}

module _ {Num : Type 0} where
  -- A record that a search by position finds stands in the store under its id, and has the position.
  pub found_by_position :
      (m : Store Num) (id : String) (r : TradeLifecycleRecord Num)
      → IsUnique m
      → find_lifecycle_records_by_broker_position_id id m ≡ r ∷ []
      → (get r.id m ≡ some r) × (r.broker_position_id ≡ some id)
  unfolding find_lifecycle_records_by_broker_position_id
  found_by_position m id r u found =
      let ((stored, has_it), _) =
        subst (All (λ s. (get s.id m ≡ some s) × (same_text s.broker_position_id (some id) ≡ true)))
          found
          (All-filter (λ s. get s.id m ≡ some s) (λ s. same_text s.broker_position_id (some id))
            (values m)
            (All-values (λ s. get s.id m ≡ some s) m u.distinct
              (λ k s e. subst (λ i. get i m ≡ some s) (sym (u.keyed k s e)) e))) in
      (stored, same_some r.broker_position_id has_it)
    where
      same_some : (p : Option String) → same_text p (some id) ≡ true → p ≡ some id
      same_some none h = cc
      same_some (some other) h = ap some ((eq_iff other id).0 h)

module _ {Num B : Type 0} (broker : SweepBroker Num B) (ctx : SweepContext Num) (w : WorldOf Num B)
    (b : B) (raw : RawPortfolioPosition Num) where
  -- The world with the broker in another state.
  abbrev there : B → WorldOf Num B
  there b' = record w { broker = record w.broker { broker = b' } }

  -- Registration changes the broker alone, or throws.
  register_unknown_then :
      (adopt : RawPortfolioPosition Num
        → String
        → InternalStrategy Num
        → B
        → Result String (Unit {0}) × B)
      (amount open_rate : Option Num) (k : Option (ReconciliationReason Num) → Rm Num B)
      → ((b' : B) (reason : Option (ReconciliationReason Num))
          → Agrees broker ctx w b (k reason (there b')))
      → Agrees broker ctx w b ((register_unknown broker ctx adopt raw amount open_rate >>= k) w)
  unfolding register_unknown adopt_by
  register_unknown_then adopt (some amount) (some open_rate) k h =
      go (adopt raw ctx.instrument ctx.strategy w.broker.broker)
    where
      go :
          (y : Result String (Unit {0}) × B)
          → Agrees broker ctx w b
              (continue k (continue (λ _. return none) (or_throw y.0 (there y.1))))
      go (ok u, after) = h after none
      go (err e, after) = refl
  register_unknown_then adopt none open_rate k h = h w.broker.broker _
  register_unknown_then adopt (some amount) none k h = h w.broker.broker _

  registered_then :
      (k : Option (ReconciliationReason Num) → Rm Num B)
      → ((b' : B) (reason : Option (ReconciliationReason Num))
          → Agrees broker ctx w b (k reason (there b')))
      → Agrees broker ctx w b ((ensure_registered_with_broker broker ctx raw >>= k) w)
  unfolding ensure_registered_with_broker register_by register_if_unknown
  registered_then k h = by_adoption broker.adopt_position
    where
      unknown :
          (adopt : RawPortfolioPosition Num
            → String
            → InternalStrategy Num
            → B
            → Result String (Unit {0}) × B)
          (known : Bool)
          → Agrees broker ctx w b (
              continue k (
                (if known
                    then return none
                    else register_unknown broker ctx adopt raw raw.amount raw.open_rate)
                  w))
      unknown adopt true = h w.broker.broker none
      unknown adopt false = register_unknown_then adopt raw.amount raw.open_rate k h

      listed :
          (adopt : RawPortfolioPosition Num
            → String
            → InternalStrategy Num
            → B
            → Result String (Unit {0}) × B)
          (x : Result String (List (PaperPosition Num)))
          → Agrees broker ctx w b
              (continue k (continue (register_if_unknown broker ctx adopt raw) (or_throw x w)))
      listed adopt (ok positions) = unknown adopt (is_known broker ctx raw positions)
      listed adopt (err e) = refl

      by_adoption :
          (adopt : Option (
            RawPortfolioPosition Num
            → String
            → InternalStrategy Num
            → B
            → Result String (Unit {0}) × B))
          → Agrees broker ctx w b (continue k (register_by broker ctx adopt raw w))
      by_adoption none = h w.broker.broker none
      by_adoption (some adopt) = listed adopt (broker.get_open_positions w.broker.broker)

  -- A record that the broker's one position belongs to.
  module _ (r : TradeLifecycleRecord Num) (shown : Shows broker ctx b (raw ∷ []))
      (at : get r.id w.store ≡ some r)
      (placed : r.broker_position_id ≡ some (broker_position_id_of raw)) where
    keep_open-Agrees :
        (b' : B) (reason : Option (ReconciliationReason Num))
        → includes (open_status ∷ close_requested ∷ []) r.status ≡ true
        → Agrees broker ctx w b (keep_open broker ctx raw r reason (there b'))
    unfolding keep_open fail_reconciliation record_sweep
    keep_open-Agrees b' none live = (raw, shown, at, placed, live)
    keep_open-Agrees b' (some reason) live = refl

    write_reverted-Agrees :
        (b' : B) → Agrees broker ctx w b (write_reverted broker ctx raw r (there b'))
    unfolding write_reverted record_sweep reverted_record
    write_reverted-Agrees b' = elim (Result-cases (update (reverted_record ctx r) w.store)) [
      | inr (e, thrown) ↦ rw thrown refl
      | inl (m, stored) ↦
          let (_, _, result) = update_inv (reverted_record ctx r) w.store m stored in
          rw stored (
            raw,
            shown,
            subst (λ s. get r.id s ≡ some (reverted_record ctx r)) result
                (get-set r.id r.id (reverted_record ctx r) w.store ∙ rw (eq_refl r.id) refl),
            placed,
            refl,
          )
    ]

    reopen-Agrees :
        (b' : B) (reason : Option (ReconciliationReason Num))
        → Agrees broker ctx w b (reopen broker ctx raw r reason (there b'))
    unfolding reopen fail_reconciliation record_sweep assert_valid_transition can_move
    reopen-Agrees b' none = write_reverted-Agrees b'
    reopen-Agrees b' (some reason) = refl

    pub with_existing-Agrees :
        (status : TradeLifecycleStatus)
        → r.status ≡ status
        → Agrees broker ctx w b (with_existing broker ctx raw r status w)
    unfolding with_existing fail_reconciliation record_sweep
    with_existing-Agrees open_status now =
        registered_then (keep_open broker ctx raw r)
          (λ b' reason. keep_open-Agrees b' reason (rw now refl))
    with_existing-Agrees close_requested now =
        registered_then (keep_open broker ctx raw r)
          (λ b' reason. keep_open-Agrees b' reason (rw now refl))
    with_existing-Agrees close_failed now = registered_then (reopen broker ctx raw r) reopen-Agrees
    with_existing-Agrees _ now = refl
