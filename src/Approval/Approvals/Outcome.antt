-- ===== src/Approval/Approvals/Outcome.antt =====
-- trade-approval/trade-candidate-service.ts: how an approval ends.
use trading_intelligence.Common.{
  ℕ, String, true, false, ◌≡◌, ◌≢◌, refl, Option, some, none, Result, ok, err, return, Bool-cases,
  inl, inr, ◌==◌, ◌⊎◌,
}
use trading_intelligence.Common.Dict.{get}
use trading_intelligence.Approval.Candidates.{
  TradeCandidate, TradeCandidateStatus, is_status, can_transition, patched, find_candidate, pending,
  approved, expired,
}
use trading_intelligence.Approval.Service.{
  Desk, Office, auto_demo_approver_id, is_expired, event_of,
}
use trading_intelligence.Approval.Approvals.{
  ApprovalOutcome, approved_outcome, expired_outcome, failed_outcome, already_handled, not_found,
  approval_patch, lapse_outcome, after_approval, approve_pending, approve_found,
  approve_trade_candidate,
}
use trading_intelligence.Approval.Moves.{is_status-eq, other_status}
use trading_intelligence.Approval.Moves.Steps.{
  record_about-then, transition_candidate-then, expire_candidate-then, after_clock,
}
use trading_intelligence.Domain.Audit.{AuditEvent, AuditEventType, record_event}
use trading_intelligence.Lifecycle.Errors.{LifecycleError, audit_failed}
use trading_intelligence.Lifecycle.World.{Details}

module _ {Num B : Type 0} where
  -- The row of the candidate, and its status.
  abbrev pub HasRow : String → TradeCandidate Num → TradeCandidateStatus → Desk Num B → Type 0
  HasRow id c status desk = (get id desk.candidates.rows ≡ some c) × (c.status ≡ status)

  abbrev pub HasEvent : AuditEventType → Desk Num B → Desk Num B → Type 0
  HasEvent event_type desk desk' =
      (event : AuditEvent (Details Num)) × (event.event_type ≡ event_type)
      × (desk'.world.audit ≡ record_event event desk.world.audit)

  -- An approval of the candidate at the instant, as it has to end. Where it throws, the trail has
  -- refused its event, and the row has been moved already.
  abbrev pub IsApproval :
      String
      → ℕ
      → Desk Num B
      → Result (LifecycleError Num) (ApprovalOutcome Num) × Desk Num B
      → Type 0
  IsApproval id now desk (ok (approved_outcome a), desk') =
      (c : TradeCandidate Num) × HasRow id c pending desk
      × (is_expired c now ≡ false)
      × HasRow id a approved desk'
      × HasEvent AuditEventType.trade_candidate_approved desk desk'
  IsApproval id now desk (ok (expired_outcome a), desk') =
      (c : TradeCandidate Num) × HasRow id c pending desk
      × (is_expired c now ≡ true)
      × HasRow id a expired desk'
      × HasEvent AuditEventType.trade_candidate_expired desk desk'
  IsApproval id now desk (ok (failed_outcome a reason), desk') = ⊥
  IsApproval id now desk (ok already_handled, desk') =
      (c : TradeCandidate Num) × (get id desk.candidates.rows ≡ some c)
      × (c.status ≢ pending)
      × (desk' ≡ desk)
  IsApproval id now desk (ok not_found, desk') =
      (get id desk.candidates.rows ≡ none) × (desk' ≡ desk)
  IsApproval id now desk (err e, desk') =
      (message : String) × (e ≡ audit_failed message)
      × (desk'.world.audit ≡ desk.world.audit)
      × (a : TradeCandidate Num) × (HasRow id a approved desk' ⊎ HasRow id a expired desk')

module _ {Num B : Type 0} (office : Office Num) (id user : String) (now : ℕ) (desk : Desk Num B)
    (c : TradeCandidate Num) (found : get id desk.candidates.rows ≡ some c)
    (is_pending : c.status ≡ pending) where
  IsApproval-fresh :
      is_expired c now ≡ false
      → IsApproval id now desk (approve_pending office id user now false desk)
  unfolding approve_pending after_approval approval_patch patched event_of can_transition
  IsApproval-fresh fresh =
      transition_candidate-then office (IsApproval id now desk) id pending
        (approval_patch (user == auto_demo_approver_id) user now) (after_approval office user now)
        desk c refl found is_pending
        λ at repo row.
          record_about-then office (IsApproval id now desk) now
            AuditEventType.trade_candidate_approved
            (patched c (approval_patch (user == auto_demo_approver_id) user now) at) _
            (return (
              approved_outcome
                (patched c (approval_patch (user == auto_demo_approver_id) user now) at)))
            (record (after_clock office desk) { candidates = repo })
            (c, (found, is_pending), fresh, (row, refl), (_, refl, refl))
            (λ message. (message, refl, refl, _, inl (row, refl)))

  IsApproval-late :
      is_expired c now ≡ true
      → IsApproval id now desk (approve_pending office id user now true desk)
  unfolding approve_pending can_transition
  IsApproval-late late =
      expire_candidate-then office (IsApproval id now desk) now "expired-at-approval-attempt" id
        pending (λ gone. return (lapse_outcome gone)) desk c refl found is_pending
        (λ a event desk' row is_gone named kept.
          (c, (found, is_pending), late, (row, is_gone), (event, named, kept)))
        (λ a message desk' row is_gone kept. (message, refl, kept, a, inr (row, is_gone)))

module _ {Num B : Type 0} (office : Office Num) where
  approve_found-IsApproval :
      (id user : String) (now : ℕ) (desk : Desk Num B) (o : Option (TradeCandidate Num))
      → get id desk.candidates.rows ≡ o
      → IsApproval id now desk (approve_found office id user now o desk)
  approve_found-IsApproval id user now desk none at = (at, refl)
  approve_found-IsApproval id user now desk (some c) at =
      elim (Bool-cases (is_status c.status pending)) [
        | inr other ↦ rw other (c, at, other_status c pending other, refl)
        | inl waits ↦ rw waits (elim (Bool-cases (is_expired c now)) [
          | inl late ↦ rw late (
              IsApproval-late office id user now desk c at (is_status-eq c.status pending waits)
                late)
          | inr fresh ↦ rw fresh (
              IsApproval-fresh office id user now desk c at (is_status-eq c.status pending waits)
                fresh)
        ])
      ]

  -- An approval, by anyone, returns "approved" only if the candidate was PENDING and not expired, has
  -- become APPROVED and the trail has the event; "expired" only if it was PENDING and expired, has
  -- become EXPIRED and the trail has the event; "already handled" and "not found" only if it was in
  -- another status or not there, and change nothing. It throws only if the trail refuses its event,
  -- and then the row has been moved already.
  pub approve_trade_candidate-IsApproval :
      (id user : String) (now : ℕ) (desk : Desk Num B)
      → IsApproval id now desk (approve_trade_candidate office id user now desk)
  unfolding approve_trade_candidate find_candidate
  approve_trade_candidate-IsApproval id user now desk =
      approve_found-IsApproval id user now desk (get id desk.candidates.rows) refl
