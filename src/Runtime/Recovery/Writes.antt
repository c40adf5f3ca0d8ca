-- ===== src/Runtime/Recovery/Writes.antt =====
-- The three writes of the recovery sweep: on a stale record of a store whose records are unique, each
-- throws only if the trail refuses its event.
use trading_intelligence.Common.{
  String, Option-cases, ◌>>◌, Bool, true, false, not, ◌&&◌, ◌≡◌, refl, [], ◌∷◌, none, some, arith,
  Result, ok, err, ◌==◌, eq_iff, find, find-filter-none, Bool-cases, inl, inr, if◌then◌else◌,
}
use trading_intelligence.Common.Dict.{get, set, values, All-get}
use trading_intelligence.Domain.Audit.{AuditEvent, AuditEventType, record_event}
use trading_intelligence.Lifecycle.Errors.{LifecycleError, RecoveryReason, recovery, audit_failed}
use trading_intelligence.Lifecycle.Record.{TradeLifecycleRecord}
use trading_intelligence.Lifecycle.Service.{assert_valid_transition}
use trading_intelligence.Lifecycle.Status.{
  TradeLifecycleStatus, decision_created, open_status, execution_abandoned,
  execution_reconciliation_required, includes, can_move,
}
use trading_intelligence.Lifecycle.Store.{
  Store, update, holds_slot, holds_position, same_text,
  find_lifecycle_records_by_broker_position_id,
}
use trading_intelligence.Lifecycle.Store.Invariant.{IsUnique}
use trading_intelligence.Lifecycle.Store.Updates.{slot_clash_kept, position_clash_new, update_free}
use trading_intelligence.Lifecycle.World.{
  World, Details, SweepDetail, abandoned, ambiguous, correlated,
}
use trading_intelligence.Runtime.Sweeps.{
  Surroundings, RawPortfolioPosition, broker_position_id_of, Sm,
}
use trading_intelligence.Runtime.Recovery.{
  pre_open_recoverable_statuses, is_pre_submission, abandoned_record, flagged_record,
  correlated_record, abandon, flag, mark_ambiguous, correlate, RecoveryContext, sweep_event,
  record_recovery,
}

abbrev pub IsRecoverable : TradeLifecycleStatus → Type 0
IsRecoverable s = includes pre_open_recoverable_statuses s ≡ true

abbrev pub is_flagged : TradeLifecycleStatus → Bool
is_flagged s = includes (execution_reconciliation_required ∷ []) s

recoverable_moves :
    (s : TradeLifecycleStatus)
    → IsRecoverable s
    → (can_move s execution_abandoned ≡ true)
      × (is_flagged s ≡ false → can_move s execution_reconciliation_required ≡ true)
      × (is_pre_submission s ≡ false → can_move s open_status ≡ true)
unfolding pre_open_recoverable_statuses is_pre_submission can_move
recoverable_moves decision_created h = (refl, λ f. refl, λ f. ground arith)
recoverable_moves _ h = (ground arith, λ f. ground arith, λ f. ground arith)

module _ {Num : Type 0} where
  -- The record stands in the store, in a status in front of OPEN and without a broker position, and
  -- the store's records are unique.
  pub record IsStale (r : TradeLifecycleRecord Num) (m : Store Num) : Type 0 where
    pub at : get r.id m ≡ some r
    pub recoverable : IsRecoverable r.status
    pub unplaced : r.broker_position_id ≡ none
    pub unique : IsUnique m

  pub recoverable-holds_slot :
      (r : TradeLifecycleRecord Num) → IsRecoverable r.status → holds_slot r ≡ true
  unfolding holds_slot pre_open_recoverable_statuses
  recoverable-holds_slot r h = ground arith

  -- No other record of the store has the position.
  abbrev pub Unclaimed : TradeLifecycleRecord Num → Store Num → RawPortfolioPosition Num → Type 0
  Unclaimed r m raw =
      find (λ s. not (s.id == r.id))
        (find_lifecycle_records_by_broker_position_id (broker_position_id_of raw) m)
      ≡ none

module _ {Num : Type 0} (ctx : RecoveryContext Num) (r : TradeLifecycleRecord Num) (m : Store Num)
    (stale : IsStale r m) where
  abandoned_holds_nothing :
      (reason : RecoveryReason)
      → (holds_slot (abandoned_record ctx r reason) ≡ false)
        × (holds_position (abandoned_record ctx r reason) ≡ false)
  unfolding holds_slot holds_position abandoned_record
  abandoned_holds_nothing reason = (refl, refl)

  update-abandoned :
      (reason : RecoveryReason)
      → update (abandoned_record ctx r reason) m ≡ ok (set r.id (abandoned_record ctx r reason) m)
  unfolding abandoned_record
  update-abandoned reason =
      update_free m r (abandoned_record ctx r reason) stale.at refl
        (λ h. cc (abandoned_holds_nothing reason).0)
        (λ h. ground (arith, abandoned_holds_nothing reason))

  update-flagged :
      (reason : RecoveryReason)
      → update (flagged_record ctx r reason) m ≡ ok (set r.id (flagged_record ctx r reason) m)
  unfolding flagged_record
  update-flagged reason =
      update_free m r (flagged_record ctx r reason) stale.at refl
        (λ h.
          slot_clash_kept m r (flagged_record ctx r reason) stale.at refl stale.unique refl refl
            (recoverable-holds_slot r stale.recoverable))
        (λ h. absurd (ground (arith, stale.unplaced)))

  update-correlated :
      (raw : RawPortfolioPosition Num) (open_rate : Num)
      → Unclaimed r m raw
      → update (correlated_record ctx r raw open_rate) m
        ≡ ok (set r.id (correlated_record ctx r raw open_rate) m)
  unfolding correlated_record find_lifecycle_records_by_broker_position_id
  update-correlated raw open_rate free =
      update_free m r (correlated_record ctx r raw open_rate) stale.at refl
        (λ h.
          slot_clash_kept m r (correlated_record ctx r raw open_rate) stale.at refl stale.unique
            refl refl (recoverable-holds_slot r stale.recoverable))
        (λ h.
          position_clash_new m r (correlated_record ctx r raw open_rate) stale.at refl stale.unique
            (λ k s e alike.
              let missed =
                All-get
                  (λ s.
                    (same_text s.broker_position_id (some (broker_position_id_of raw))
                      && not (s.id == r.id))
                    ≡ false)
                  k m s
                  (find-filter-none (λ s. not (s.id == r.id))
                    (λ s. same_text s.broker_position_id (some (broker_position_id_of raw)))
                    (values m) free)
                  e in
              ground (arith, eq_iff s.id r.id)))

-- What a step has done to the store and the trail it found.
abbrev pub Leaves :
    {Num B : Type 0}
    → Store Num
    → AuditEvent (Details Num)
    → World Num (Surroundings Num B)
    → World Num (Surroundings Num B)
    → Type 0
Leaves store event w w' = (w'.store ≡ store) × (w'.audit ≡ record_event event w.audit)

module _ {Num B : Type 0} (ctx : RecoveryContext Num) (r : TradeLifecycleRecord Num)
    (w : World Num (Surroundings Num B)) where
  abbrev pub Flags : World Num (Surroundings Num B) → Type 0
  Flags w' =
      (reason : RecoveryReason) × Leaves
        (if is_flagged r.status then w.store else set r.id (flagged_record ctx r reason) w.store)
        (sweep_event ctx AuditEventType.lifecycle_recovery_ambiguous
          (ambiguous r.id r.status (recovery reason)))
        w w'

  abbrev pub Abandons : World Num (Surroundings Num B) → Type 0
  Abandons w' =
      (reason : RecoveryReason) × Leaves (set r.id (abandoned_record ctx r reason) w.store)
        (sweep_event ctx AuditEventType.lifecycle_recovery_abandoned
          (abandoned r.id r.status (recovery reason)))
        w w'

  abbrev pub Correlates : RawPortfolioPosition Num → Num → World Num (Surroundings Num B) → Type 0
  Correlates raw open_rate w' =
      Leaves (set r.id (correlated_record ctx r raw open_rate) w.store)
        (sweep_event ctx AuditEventType.lifecycle_recovery_correlated
          (correlated (broker_position_id_of raw) r.id r.status))
        w w'

  -- The trail has refused an event, and nothing is written.
  abbrev pub Refused : LifecycleError Num → World Num (Surroundings Num B) → Type 0
  Refused e w' =
      (w'.store ≡ w.store)
      × (w'.audit ≡ w.audit)
      × ((event : AuditEvent (Details Num)) × (message : String) × (ctx.refuses w.audit event
            ≡ some message)
          × (e ≡ audit_failed message))

  -- The call returns, and the world it leaves is as `P` says; or the trail refuses its event.
  abbrev pub Does :
      (World Num (Surroundings Num B) → Type 0)
      → Result (LifecycleError Num) (Unit {0}) × World Num (Surroundings Num B)
      → Type 0
  Does P (ok u, w') = P w'
  Does P (err e, w') = Refused e w'

  module _ (stale : IsStale r w.store) where
    -- What is done once the trail has taken the event.
    record_recovery-then :
        (P : World Num (Surroundings Num B) → Type 0) (event_type : AuditEventType)
        (detail : SweepDetail Num) (k : Sm Num B (Unit {0}))
        → Does P (k (record w { audit = record_event (sweep_event ctx event_type detail) w.audit }))
        → Does P ((record_recovery ctx event_type detail >> k) w)
    unfolding record_recovery
    record_recovery-then P event_type detail k h = elim (Option-cases (ctx.refuses w.audit event)) [
      | inl takes ↦ rw takes h
      | inr (message, refuses) ↦ rw refuses (refl, refl, (event, message, refuses, refl))
    ]
      where
        event : AuditEvent (Details Num)
        event = sweep_event ctx event_type detail

    pub abandon-Abandons : (reason : RecoveryReason) → Does Abandons (abandon ctx r reason w)
    unfolding abandon assert_valid_transition
    abandon-Abandons reason = rw (recoverable_moves r.status stale.recoverable).0 (
        record_recovery-then Abandons _ _ _
          (rw (update-abandoned ctx r w.store stale reason) (reason, (refl, refl))))

    pub mark_ambiguous-Flags :
        (reason : RecoveryReason) → Does Flags (mark_ambiguous ctx r reason w)
    unfolding mark_ambiguous flag assert_valid_transition
    mark_ambiguous-Flags reason =
        record_recovery-then Flags _ _ _ (elim (Bool-cases (is_flagged r.status)) [
          | inl before ↦ rw before (reason, (rw before refl, refl))
          | inr new ↦
              rw
                (
                  new,
                  (recoverable_moves r.status stale.recoverable).1 new,
                  update-flagged ctx r w.store stale reason,
                )
                (reason, (rw new refl, refl))
        ])

    pub correlate-Correlates :
        (raw : RawPortfolioPosition Num) (open_rate : Num)
        → is_pre_submission r.status ≡ false
        → Unclaimed r w.store raw
        → Does (Correlates raw open_rate) (correlate ctx r raw open_rate w)
    unfolding correlate assert_valid_transition
    correlate-Correlates raw open_rate submitted free =
        rw ((recoverable_moves r.status stale.recoverable).2 submitted) (
          record_recovery-then (Correlates raw open_rate) _ _ _
            (rw (update-correlated ctx r w.store stale raw open_rate free) (refl, refl)))
