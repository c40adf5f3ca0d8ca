-- ===== src/Runtime/Recovery/Outcome.antt =====
-- What becomes of a stale record, and on which evidence.
use trading_intelligence.Common.{
  String, Bool, true, false, ◌≡◌, refl, ◌⊎◌, Option, none, some, Result, ok, err, ◌==◌, eq_iff,
  Bool-cases, inl, inr, if◌then◌else◌,
}
use trading_intelligence.Approval.Candidates.{find_candidate}
use trading_intelligence.Lifecycle.Errors.{LifecycleError}
use trading_intelligence.Lifecycle.Record.{TradeLifecycleRecord}
use trading_intelligence.Runtime.Sweeps.{SweepBroker, WorldOf}
use trading_intelligence.Runtime.Recovery.{
  is_pre_submission, is_executed, recover_record, after_candidate, recover_by_status,
  recover_pre_submission_record, recover_ambiguous_submission, recover_of, mark_ambiguous,
  RecoveryContext,
}
use trading_intelligence.Runtime.Recovery.Writes.{IsStale, Flags, Does, mark_ambiguous-Flags}
use trading_intelligence.Runtime.Recovery.Resolution.{Resolves, recover_pre_submission-Resolves}
use trading_intelligence.Runtime.Recovery.Portfolio.{resolve_with-Resolves}

module _ {Num B : Type 0} (broker : SweepBroker Num B) (ctx : RecoveryContext Num) where
  module _ (r : TradeLifecycleRecord Num) where
    recover_by_status-Resolves :
        (w : WorldOf Num B)
        → IsStale r w.store
        → Resolves broker ctx r w w.broker.broker (recover_by_status broker ctx r w)
    unfolding recover_by_status recover_ambiguous_submission
    recover_by_status-Resolves w stale = go (is_pre_submission r.status) refl
      where
        go :
            (early : Bool)
            → is_pre_submission r.status ≡ early
            → Resolves broker ctx r w w.broker.broker (
                (if early
                    then recover_pre_submission_record broker ctx r
                    else recover_ambiguous_submission broker ctx r)
                  w)
        go true early = recover_pre_submission-Resolves broker ctx r w stale early
        go false late =
            resolve_with-Resolves broker ctx r w broker.get_raw_portfolio broker.resolve_instrument
              refl refl stale late

    -- No candidate of the record is EXECUTED: it names none, or one that is not.
    abbrev pub NotExecuted : WorldOf Num B → Type 0
    NotExecuted w =
        (r.candidate_id ≡ none)
        ⊎ ((id : String) × (r.candidate_id ≡ some id)
            × ((id ≡ "") ⊎ (is_executed (find_candidate id w.broker.candidates) ≡ false)))

    abbrev pub Executed : WorldOf Num B → Type 0
    Executed w =
        (id : String) × (r.candidate_id ≡ some id)
        × (is_executed (find_candidate id w.broker.candidates) ≡ true)

    -- As `Resolves`, and a record whose candidate is EXECUTED is only ever kept for review.
    abbrev pub Settles :
        WorldOf Num B → B → Result (LifecycleError Num) (Unit {0}) × WorldOf Num B → Type 0
    Settles w b (ok u, w') =
        (Flags ctx r w w' × Executed w) ⊎ (NotExecuted w × Resolves broker ctx r w b (ok u, w'))
    Settles w b (err e, w') = Resolves broker ctx r w b (err e, w')

    settles :
        (w : WorldOf Num B) (b : B) (x : Result (LifecycleError Num) (Unit {0}) × WorldOf Num B)
        → NotExecuted w
        → Resolves broker ctx r w b x
        → Settles w b x
    settles w b (ok u, w') free h = inr (free, h)
    settles w b (err e, w') free h = h

    flagged :
        (w : WorldOf Num B) (b : B) (x : Result (LifecycleError Num) (Unit {0}) × WorldOf Num B)
        → Executed w
        → Does ctx r w (Flags ctx r w) x
        → Settles w b x
    flagged w b (ok u, w') done h = inl (h, done)
    flagged w b (err e, w') done h = inr h

    recover_of-Settles :
        (w : WorldOf Num B) (candidate_id : Option String)
        → r.candidate_id ≡ candidate_id
        → IsStale r w.store
        → Settles w w.broker.broker (recover_of broker ctx r candidate_id w)
    unfolding recover_of after_candidate
    recover_of-Settles w none named stale =
        settles w w.broker.broker (recover_by_status broker ctx r w) (inl named)
          (recover_by_status-Resolves w stale)
    recover_of-Settles w (some id) named stale = elim (Bool-cases (id == "")) [
      | inl empty ↦ rw empty (
          settles w w.broker.broker (recover_by_status broker ctx r w)
            (inr (id, named, inl ((eq_iff id "").0 empty))) (recover_by_status-Resolves w stale))
      | inr filled ↦
          rw filled (elim (Bool-cases (is_executed (find_candidate id w.broker.candidates))) [
            | inl done ↦ rw done (
                flagged w w.broker.broker (mark_ambiguous ctx r _ w) (id, named, done)
                  (mark_ambiguous-Flags ctx r w stale _))
            | inr waiting ↦ rw waiting (
                settles w w.broker.broker (recover_by_status broker ctx r w)
                  (inr (id, named, inr waiting)) (recover_by_status-Resolves w stale))
          ])
    ]

    pub recover_record-Settles :
        (w : WorldOf Num B)
        → IsStale r w.store
        → Settles w w.broker.broker (recover_record broker ctx r w)
    unfolding recover_record
    recover_record-Settles w stale = recover_of-Settles w r.candidate_id refl stale
