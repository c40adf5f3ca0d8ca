-- ===== src/Approval/Approvals.antt =====
-- trade-approval/trade-candidate-service.ts: the approval of a candidate by a human and by itself, and
-- its rejection.
pub mod Outcome
pub mod Automatic
use trading_intelligence.Common.{
  ℕ, suc, String, Bool, true, false, List, [], ◌∷◌, ◌++◌, Option, some, none, Result, ok, err, M,
  ◌==◌, if◌then◌else◌, ◌>>=◌, ◌>>◌, return, throw, try_catch, leb,
}
use trading_intelligence.Common.Int.{ℤ}
use trading_intelligence.Common.Numbers.{Numbers}
use trading_intelligence.Common.Time.{Timestamp, iso, date_parse}
use trading_intelligence.Approval.Builder.{
  BuildTradeCandidateInputOptions, build_trade_candidate_input,
}
use trading_intelligence.Approval.Candidates.{
  TradeCandidate, TradeCandidateStatus, TradeCandidateTransitionPatch, CandidateApprovalSource,
  human, auto_demo, Repository, InvalidTradeCandidateTransitionError, create_candidate,
  find_candidate, move_candidate, is_status,
}
use trading_intelligence.Approval.Candidates
use trading_intelligence.Approval.Duplicates.{TradeCandidateFilter, list_candidates}
use trading_intelligence.Domain.Audit.{AuditEvent, AuditEventType, record_event}
use trading_intelligence.Domain.Market.{MarketDecisionAction}
use trading_intelligence.Domain.Orders.{OrderSide}
use trading_intelligence.Lifecycle.Errors.{
  LifecycleError, Message, error_message, audit_failed, invalid_candidate_transition,
  approval_not_stored, approval_not_audited,
}
use trading_intelligence.Lifecycle.World.{
  World, Env, Details, CandidateDetail, candidate, proposed, lapsed, approved_by, auto_approved_by,
  rejected_by, failed_because,
}
use trading_intelligence.Approval.Service.{
  Desk, Dm, Office, auto_demo_approver_id, to_status, is_expired, candidate_by_id, audit_event,
  event_of, record_about, transition_candidate, after_lapse, expire_candidate,
}

pub data ApprovalOutcome (Num : Type 0) : Type 0 where
  approved_outcome expired_outcome : TradeCandidate Num → ApprovalOutcome Num
  failed_outcome : TradeCandidate Num → Message Num → ApprovalOutcome Num
  already_handled not_found : ApprovalOutcome Num

pub data RejectionOutcome (Num : Type 0) : Type 0 where
  rejected_outcome : TradeCandidate Num → RejectionOutcome Num
  rejection_already_handled rejection_not_found : RejectionOutcome Num

module _ {Num : Type 0} where
  abbrev pub lapse_outcome : Option (TradeCandidate Num) → ApprovalOutcome Num
  lapse_outcome none = already_handled
  lapse_outcome (some c) = expired_outcome c

  abbrev pub failure_outcome : Message Num → Option (TradeCandidate Num) → ApprovalOutcome Num
  failure_outcome reason none = not_found
  failure_outcome reason (some c) = failed_outcome c reason

  abbrev pub strategy_of : Option (TradeCandidate Num) → Option String
  strategy_of none = none
  strategy_of (some c) = some c.input.strategy_id

  abbrev pub instrument_of : Option (TradeCandidate Num) → Option String
  instrument_of none = none
  instrument_of (some c) = some c.input.instrument

-- `approvedByUserId: isSystemApproval ? undefined : approvedByUserId` and its source.
unfoldable pub approval_patch : Bool → String → ℕ → TradeCandidateTransitionPatch
approval_patch is_system user now = record (to_status Candidates.approved) {
  approved_at = some (iso now);
  approved_by_user_id = if is_system then none else some user;
  approval_source = if is_system then some auto_demo else none;
}

unfoldable pub rejection_patch : String → Option String → ℕ → TradeCandidateTransitionPatch
rejection_patch user reason now = record (to_status Candidates.rejected) {
  rejected_at = some (iso now);
  rejected_by_user_id = some user;
  rejection_reason = reason;
}

module _ {Num B : Type 0} (office : Office Num) where
  unfoldable pub after_approval :
      String → ℕ → Option (TradeCandidate Num) → Dm Num B (ApprovalOutcome Num)
  unfolding record_about
  after_approval user now none = return already_handled
  after_approval user now (some c) = do
    record_about office now AuditEventType.trade_candidate_approved c
        (approved_by user (if user == auto_demo_approver_id then auto_demo else human))
    return (approved_outcome c)

  -- A PENDING candidate: its expiry, or its approval.
  unfoldable pub approve_pending : String → String → ℕ → Bool → Dm Num B (ApprovalOutcome Num)
  unfolding expire_candidate transition_candidate after_approval approval_patch
  approve_pending id user now true = do
    gone ← expire_candidate office now "expired-at-approval-attempt" id Candidates.pending
    return (lapse_outcome gone)
  approve_pending id user now false = do
    moved_one ←
        transition_candidate office id Candidates.pending
          (approval_patch (user == auto_demo_approver_id) user now)
    after_approval user now moved_one

  abbrev pub approve_found :
      String → String → ℕ → Option (TradeCandidate Num) → Dm Num B (ApprovalOutcome Num)
  approve_found id user now none = return not_found
  approve_found id user now (some c) =
      if is_status c.status Candidates.pending
      then approve_pending id user now (is_expired c now)
      else return already_handled

  unfoldable pub approve_trade_candidate : String → String → ℕ → Dm Num B (ApprovalOutcome Num)
  unfolding approve_pending is_status is_expired find_candidate
  approve_trade_candidate id user now = candidate_by_id id >>= approve_found id user now

  unfoldable pub after_rejection :
      String → Option String → ℕ → Option (TradeCandidate Num) → Dm Num B (RejectionOutcome Num)
  unfolding record_about
  after_rejection user reason now none = return rejection_already_handled
  after_rejection user reason now (some c) = do
    record_about office now AuditEventType.trade_candidate_rejected c (rejected_by user reason)
    return (rejected_outcome c)

  unfoldable pub reject_pending :
      String → String → Option String → ℕ → Dm Num B (RejectionOutcome Num)
  unfolding transition_candidate after_rejection rejection_patch
  reject_pending id user reason now = do
    moved_one ← transition_candidate office id Candidates.pending (rejection_patch user reason now)
    after_rejection user reason now moved_one

  abbrev pub reject_found :
      String
      → String
      → Option String
      → ℕ
      → Option (TradeCandidate Num)
      → Dm Num B (RejectionOutcome Num)
  reject_found id user reason now none = return rejection_not_found
  reject_found id user reason now (some c) =
      if is_status c.status Candidates.pending
      then reject_pending id user reason now
      else return rejection_already_handled

  unfoldable pub reject_trade_candidate :
      String → String → Option String → ℕ → Dm Num B (RejectionOutcome Num)
  unfolding reject_pending is_status find_candidate
  reject_trade_candidate id user reason now = candidate_by_id id >>= reject_found id user reason now

  -- The second `catch`: the approval is taken back.
  unfoldable pub after_revert :
      ℕ → Message Num → Option (TradeCandidate Num) → Dm Num B (ApprovalOutcome Num)
  unfolding record_about
  after_revert now reason none = return already_handled
  after_revert now reason (some c) = do
    record_about office now AuditEventType.trade_candidate_execution_failed c
        (failed_because reason)
    return (failed_outcome c reason)

  unfoldable pub revert_approval : String → ℕ → LifecycleError Num → Dm Num B (ApprovalOutcome Num)
  unfolding transition_candidate after_revert
  revert_approval id now error = do
    let reason = approval_not_audited (error_message error)
    moved_one ←
        transition_candidate office id Candidates.approved (record (to_status Candidates.failed) {
          failure_reason = some (office.message_text reason);
        })
    after_revert now reason moved_one

  unfoldable pub mark_auto_approved :
      String → ℕ → ApprovalOutcome Num → Dm Num B (ApprovalOutcome Num)
  unfolding record_about revert_approval
  mark_auto_approved id now (approved_outcome c) =
      try_catch
        (record_about office now AuditEventType.trade_candidate_auto_approved c
            (auto_approved_by auto_demo_approver_id)
          >> return (approved_outcome c))
        (revert_approval id now)
  mark_auto_approved id now other = return other

  -- The first `catch`: the approval has thrown.
  unfoldable pub approval_thrown : String → ℕ → LifecycleError Num → Dm Num B (ApprovalOutcome Num)
  unfolding event_of find_candidate
  approval_thrown id now error = do
    let reason = approval_not_stored (error_message error)
    current ← candidate_by_id id
    audit_event office (
        event_of office now AuditEventType.auto_approval_failed (strategy_of current)
          (instrument_of current) id (failed_because reason))
    return (failure_outcome reason current)

  abbrev pub approved_or_thrown :
      String
      → ℕ
      → Result (LifecycleError Num) (ApprovalOutcome Num) × Desk Num B
      → Result (LifecycleError Num) (ApprovalOutcome Num) × Desk Num B
  approved_or_thrown id now (ok outcome, desk) = mark_auto_approved id now outcome desk
  approved_or_thrown id now (err error, desk) = approval_thrown id now error desk

  unfoldable pub auto_approve_trade_candidate : String → ℕ → Dm Num B (ApprovalOutcome Num)
  unfolding approve_trade_candidate mark_auto_approved approval_thrown
  auto_approve_trade_candidate id now desk =
      approved_or_thrown id now (approve_trade_candidate id auto_demo_approver_id now desk)
