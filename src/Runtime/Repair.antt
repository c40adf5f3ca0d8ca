-- ===== src/Runtime/Repair.antt =====
-- trade-approval/candidate-lifecycle-repair.ts: a record that proves that a trade was opened moves the
-- candidate it came from on.
use trading_intelligence.Common.{
  String, Bool, List, [], ◌∷◌, ◌&&◌, Option, none, some, Result, ok, err, return, throw, ◌>>=◌,
  ◌>>◌, ◌==◌, if◌then◌else◌, is_set,
}
use trading_intelligence.Common.Time.{iso}
use trading_intelligence.Approval.Candidates.{
  TradeCandidate, TradeCandidateStatus, TradeCandidateTransitionPatch, Repository,
  InvalidTradeCandidateTransitionError, find_candidate, move_candidate, executed, failed,
}
use trading_intelligence.Approval.Candidates
use trading_intelligence.Domain.Audit.{AuditEventType}
use trading_intelligence.Lifecycle.Errors.{
  does_not_prove_opening, missing_opening_evidence, invalid_candidate_transition,
}
use trading_intelligence.Lifecycle.Record.{TradeLifecycleRecord}
use trading_intelligence.Lifecycle.Status.{
  TradeLifecycleStatus, open_status, close_requested, close_failed, closed, closed_unreconciled,
  includes,
}
use trading_intelligence.Lifecycle.World.{
  Details, execution_reconciled, failed_with_position, record_audit,
}
use trading_intelligence.Runtime.Sweeps.{SweepContext, Sm, read_candidates}

-- `STATUSES_PROVING_OPENED_POSITION`
unfoldable pub statuses_proving_opened_position : List TradeLifecycleStatus
statuses_proving_opened_position =
    open_status ∷ close_requested ∷ close_failed ∷ closed ∷ closed_unreconciled ∷ []

unfoldable pub has_opening_evidence : {Num : Type 0} → TradeLifecycleRecord Num → Bool
has_opening_evidence r = is_set r.broker_position_id && (is_set r.entry_price && is_set r.opened_at)

-- The patch to EXECUTED.
unfoldable pub executed_patch :
    {Num : Type 0} → SweepContext Num → TradeLifecycleRecord Num → TradeCandidateTransitionPatch
executed_patch ctx r = record {
  status = executed;
  approved_at = none;
  approved_by_user_id = none;
  approval_source = none;
  rejected_at = none;
  rejected_by_user_id = none;
  rejection_reason = none;
  executed_at = some (iso ctx.now);
  lifecycle_record_id = some r.id;
  broker_order_id = r.broker_order_id;
  failure_reason = none;
}

module _ {Num B : Type 0} where
  unfoldable pub assert_proves_opened_position : TradeLifecycleRecord Num → Sm Num B (Unit {0})
  unfolding includes statuses_proving_opened_position has_opening_evidence
  assert_proves_opened_position r =
      if includes statuses_proving_opened_position r.status
      then (if has_opening_evidence r then return tt else throw (missing_opening_evidence r.id))
      else throw (does_not_prove_opening r.id r.status)

  -- The answer of `transition`, and the repository it leaves.
  abbrev pub moved :
      Result InvalidTradeCandidateTransitionError (Option (TradeCandidate Num)) × Repository Num
      → Sm Num B (Option (TradeCandidate Num))
  moved (ok c, repo) w = (ok c, record w { broker = record w.broker { candidates = repo } })
  moved (err e, repo) w = (
    err (invalid_candidate_transition e.from e.to),
    record w { broker = record w.broker { candidates = repo } },
  )

  -- An event about the candidate.
  unfoldable pub record_candidate :
      SweepContext Num → AuditEventType → TradeCandidate Num → Details Num → Sm Num B (Unit {0})
  record_candidate ctx event_type c details = record_audit (record {
    timestamp = iso ctx.now;
    event_type = event_type;
    execution_run_id = ctx.execution_run_id;
    strategy_id = some c.input.strategy_id;
    strategy_version = none;
    source_type = none;
    instrument = some c.input.instrument;
    details = details;
  })

  unfoldable pub after_execution :
      SweepContext Num
      → TradeLifecycleRecord Num
      → Option (TradeCandidate Num)
      → Sm Num B (Unit {0})
  unfolding record_candidate
  after_execution ctx r none = return tt
  after_execution ctx r (some c) =
      record_candidate ctx AuditEventType.candidate_execution_reconciled c
        (execution_reconciled c.id r.id r.status r.broker_order_id)

  unfoldable pub repair_by_status :
      SweepContext Num
      → TradeLifecycleRecord Num
      → TradeCandidate Num
      → TradeCandidateStatus
      → Sm Num B (Unit {0})
  unfolding move_candidate executed_patch after_execution record_candidate
  repair_by_status ctx r c Candidates.approved = do
    answer ← λ w.
        moved
          (move_candidate c.id Candidates.approved (executed_patch ctx r) ctx.now
            w.broker.candidates)
          w
    after_execution ctx r answer
  repair_by_status ctx r c failed =
      record_candidate ctx AuditEventType.candidate_failed_with_confirmed_broker_position c
        (failed_with_position c.id r.id r.status)
  repair_by_status ctx r c _ = return tt

  unfoldable pub repair_found :
      SweepContext Num
      → TradeLifecycleRecord Num
      → Option (TradeCandidate Num)
      → Sm Num B (Unit {0})
  unfolding repair_by_status
  repair_found ctx r none = return tt
  repair_found ctx r (some c) = repair_by_status ctx r c c.status

  -- `lifecycleRecord.candidateId` is truthy: an empty id is as good as none.
  unfoldable pub repair_of :
      SweepContext Num → TradeLifecycleRecord Num → Option String → Sm Num B (Unit {0})
  unfolding repair_found find_candidate
  repair_of ctx r none = return tt
  repair_of ctx r (some id) =
      if id == "" then return tt else (read_candidates (find_candidate id) >>= repair_found ctx r)

  unfoldable pub repair_candidate_for_confirmed_lifecycle :
      SweepContext Num → TradeLifecycleRecord Num → Sm Num B (Unit {0})
  unfolding assert_proves_opened_position repair_of
  repair_candidate_for_confirmed_lifecycle ctx r = do
    assert_proves_opened_position r
    repair_of ctx r r.candidate_id
