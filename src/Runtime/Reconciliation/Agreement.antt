-- ===== src/Runtime/Reconciliation/Agreement.antt =====
-- What a reconciliation's answer says of the broker and of the records.
use trading_intelligence.Common.{
  String, Bool, true, false, ◌≡◌, refl, sym, ap, ◌∙◌, ◌⊎◌, List, [], ◌∷◌, Option, none, some,
  Result, ok, err, continue, ◌==◌, any, Bool-cases, Result-cases, inl, inr,
}
use trading_intelligence.Common.Dict.{get, set}
use trading_intelligence.Approval.Candidates.{
  TradeCandidate, TradeCandidateStatus, Repository, InvalidTradeCandidateTransitionError,
  find_candidate, move_candidate,
}
use trading_intelligence.Approval.Candidates
use trading_intelligence.Domain.Orders.{PaperPosition}
use trading_intelligence.Lifecycle.Errors.{LifecycleError}
use trading_intelligence.Lifecycle.Record.{TradeLifecycleRecord}
use trading_intelligence.Lifecycle.Service.{assert_valid_transition}
use trading_intelligence.Lifecycle.Status.{
  open_status, close_requested, closed_unreconciled, execution_reconciliation_required, includes,
  can_move,
}
use trading_intelligence.Lifecycle.Store.{Store, update, list_active_lifecycle_records}
use trading_intelligence.Lifecycle.Store.Invariant.{update_inv}
use trading_intelligence.Runtime.Repair.{
  repair_candidate_for_confirmed_lifecycle, repair_of, repair_found, repair_by_status,
  after_execution, record_candidate, assert_proves_opened_position, has_opening_evidence,
  statuses_proving_opened_position, executed_patch, moved,
}
use trading_intelligence.Runtime.Sweeps.{
  SweepBroker, SweepContext, WorldOf, Shows, RawPortfolioPosition, record_sweep,
  broker_position_id_of,
}
use trading_intelligence.Runtime.Reconciliation.{
  ReconcileBrokerPositionResult, position_open, no_position_open, not_ok, unreconciled_record,
  write_unreconciled, is_reconcilable_to_closed_unreconciled, local_active_position_statuses,
  close_unreconciled, refuse_mismatch, reconcile_local_active_but_broker_absent, broker_absent,
}

module _ {Num B : Type 0} (broker : SweepBroker Num B) (ctx : SweepContext Num) where
  -- The broker's own list of open positions has none on the instrument, or some.
  abbrev pub Lists : Bool → B → Type 0
  Lists answer b =
      (positions : List (PaperPosition Num)) × (broker.get_open_positions b ≡ ok positions)
      × (any (λ p. p.instrument == ctx.instrument) positions ≡ answer)

  -- What the store says is active for the strategy and the instrument.
  abbrev pub Active : Store Num → List (TradeLifecycleRecord Num) → Type 0
  Active m rs =
      list_active_lifecycle_records ctx.strategy.strategy_id ctx.instrument
        local_active_position_statuses m
      ≡ rs

  -- The answer, given in the state `b` of the broker. A record that is returned stands in the store, is
  -- OPEN or CLOSE_REQUESTED and has the one position that the broker shows. "Open" without a record is
  -- said of a record that waits for review, or on the word of a broker without a portfolio. "Not open"
  -- is said where the broker has no position; then no record was active, or the one that was is now
  -- CLOSED_UNRECONCILED. A refusal, or an error that is thrown, changes no record.
  abbrev pub Agrees :
      WorldOf Num B
      → B
      → Result (LifecycleError Num) (ReconcileBrokerPositionResult Num) × WorldOf Num B
      → Type 0
  Agrees w b (ok (position_open (some r)), w') =
      (raw : RawPortfolioPosition Num) × Shows broker ctx b (raw ∷ [])
      × (get r.id w'.store ≡ some r)
      × (r.broker_position_id ≡ some (broker_position_id_of raw))
      × (includes (open_status ∷ close_requested ∷ []) r.status ≡ true)
  Agrees w b (ok (position_open none), w') =
      (w'.store ≡ w.store)
      × (((r : TradeLifecycleRecord Num) × Active w.store (r ∷ [])
            × (includes (execution_reconciliation_required ∷ []) r.status ≡ true))
          ⊎ Lists true b)
  Agrees w b (ok no_position_open, w') =
      (Shows broker ctx b [] ⊎ Lists false b)
      × (((w'.store ≡ w.store) × Active w.store [])
          ⊎ ((r : TradeLifecycleRecord Num) × Active w.store (r ∷ [])
              × (w'.store ≡ set r.id (unreconciled_record ctx r) w.store)))
  Agrees w b (ok (not_ok reason), w') = w'.store ≡ w.store
  Agrees w b (err e, w') = w'.store ≡ w.store

-- The repair of a candidate touches no record.
module _ {Num B : Type 0} (ctx : SweepContext Num) (r : TradeLifecycleRecord Num)
    (w : WorldOf Num B) where
  repair_by_status_keeps :
      (c : TradeCandidate Num) (s : TradeCandidateStatus)
      → (repair_by_status ctx r c s w).1.store ≡ w.store
  unfolding repair_by_status record_candidate
  repair_by_status_keeps c Candidates.approved =
      go
        (move_candidate c.id Candidates.approved (executed_patch ctx r) ctx.now w.broker.candidates)
    where
      answered :
          (d : Option (TradeCandidate Num)) (v : WorldOf Num B)
          → (after_execution ctx r d v).1.store ≡ v.store
      answered none v = refl
      answered (some c) v = refl

      go :
          (x : Result InvalidTradeCandidateTransitionError (Option (TradeCandidate Num))
            × Repository Num)
          → (continue (after_execution ctx r) (moved x w)).1.store ≡ w.store
      go (ok d, repo) = answered d (record w { broker = record w.broker { candidates = repo } })
      go (err e, repo) = refl
  repair_by_status_keeps c s = refl

  repair_of_keeps : (id : Option String) → (repair_of ctx r id w).1.store ≡ w.store
  unfolding repair_of repair_found
  repair_of_keeps none = refl
  repair_of_keeps (some id) = elim (Bool-cases (id == "")) [
    | inl empty ↦ rw empty refl
    | inr present ↦ rw present (go (find_candidate id w.broker.candidates))
  ]
    where
      go : (c : Option (TradeCandidate Num)) → (repair_found ctx r c w).1.store ≡ w.store
      go none = refl
      go (some c) = repair_by_status_keeps c c.status

  pub repair_keeps : (repair_candidate_for_confirmed_lifecycle ctx r w).1.store ≡ w.store
  unfolding repair_candidate_for_confirmed_lifecycle assert_proves_opened_position
  repair_keeps = elim (Bool-cases (includes statuses_proving_opened_position r.status)) [
    | inr unproven ↦ rw unproven refl
    | inl proven ↦ rw proven (elim (Bool-cases (has_opening_evidence r)) [
      | inr missing ↦ rw missing refl
      | inl there ↦ rw there (repair_of_keeps r.candidate_id)
    ])
  ]

module _ {Num B : Type 0} (broker : SweepBroker Num B) (ctx : SweepContext Num) (w : WorldOf Num B)
    (b : B) where
  write_unreconciled-Agrees :
      (v : WorldOf Num B) (r : TradeLifecycleRecord Num)
      → v.store ≡ w.store
      → Active broker ctx w.store (r ∷ [])
      → Shows broker ctx b [] ⊎ Lists broker ctx false b
      → Agrees broker ctx w b (write_unreconciled ctx r v)
  unfolding write_unreconciled record_sweep unreconciled_record
  write_unreconciled-Agrees v r same active absent =
      elim (Result-cases (update (unreconciled_record ctx r) v.store)) [
        | inr (e, thrown) ↦ rw thrown same
        | inl (m, stored) ↦
            let (_, _, result) = update_inv (unreconciled_record ctx r) v.store m stored in
            rw stored (
              absent,
              inr (
                r,
                active,
                sym result ∙ ap (λ old. set r.id (unreconciled_record ctx r) old) same,
              ),
            )
      ]

  close_unreconciled-Agrees :
      (r : TradeLifecycleRecord Num)
      → Active broker ctx w.store (r ∷ [])
      → Shows broker ctx b [] ⊎ Lists broker ctx false b
      → Agrees broker ctx w b (close_unreconciled ctx r w)
  unfolding close_unreconciled assert_valid_transition
  close_unreconciled-Agrees r active absent =
      elim (Bool-cases (can_move r.status closed_unreconciled)) [
        | inr refused ↦ rw refused refl
        | inl allowed ↦
            rw allowed
              (repaired (repair_candidate_for_confirmed_lifecycle ctx r w) (repair_keeps ctx r w))
      ]
    where
      repaired :
          (x : Result (LifecycleError Num) (Unit {0}) × WorldOf Num B)
          → x.1.store ≡ w.store
          → Agrees broker ctx w b (continue (λ _. write_unreconciled ctx r) x)
      repaired (ok u, v) same = write_unreconciled-Agrees v r same active absent
      repaired (err e, v) same = same

  -- What the store says is active: nothing, or one record.
  abbrev pub LocalIs : Option (TradeLifecycleRecord Num) → Type 0
  LocalIs none = Active broker ctx w.store []
  LocalIs (some r) = Active broker ctx w.store (r ∷ [])

  pub broker_absent-Agrees :
      (local : Option (TradeLifecycleRecord Num))
      → LocalIs local
      → Shows broker ctx b [] ⊎ Lists broker ctx false b
      → Agrees broker ctx w b (broker_absent ctx local w)
  unfolding broker_absent reconcile_local_active_but_broker_absent refuse_mismatch record_sweep
  broker_absent-Agrees none active absent = (absent, inl (refl, active))
  broker_absent-Agrees (some r) active absent =
      elim (Bool-cases (is_reconcilable_to_closed_unreconciled r.status)) [
        | inl resolvable ↦ rw resolvable (close_unreconciled-Agrees r active absent)
        | inr not_resolvable ↦ rw not_resolvable refl
      ]
