-- ===== src/Approval/Approvals/Automatic.antt =====
-- trade-approval/trade-candidate-service.ts: how an automatic approval ends.
use trading_intelligence.Common.{
  ℕ, String, false, ◌≡◌, refl, sym, ap, subst, Option, some, Result, ok, err, ◌>>◌, return,
  catch_in, inl, inr, ◌⊎◌, Option-cases,
}
use trading_intelligence.Common.Dict.{get}
use trading_intelligence.Approval.Candidates.{
  TradeCandidate, can_transition, patched, find_candidate, pending, approved, expired, failed,
}
use trading_intelligence.Approval.Service.{
  Desk, Office, audit_event, auto_demo_approver_id, to_status, is_expired, event_of,
}
use trading_intelligence.Approval.Approvals.{
  ApprovalOutcome, approved_outcome, expired_outcome, failed_outcome, already_handled, not_found,
  approve_trade_candidate, approved_or_thrown, approval_thrown, failure_outcome, strategy_of,
  instrument_of, mark_auto_approved, revert_approval, after_revert, auto_approve_trade_candidate,
}
use trading_intelligence.Approval.Approvals.Outcome.{
  HasRow, HasEvent, IsApproval, approve_trade_candidate-IsApproval,
}
use trading_intelligence.Approval.Moves.Steps.{
  record_about-then, transition_candidate-then, after_clock,
}
use trading_intelligence.Domain.Audit.{AuditEvent, AuditEventType, record_event}
use trading_intelligence.Lifecycle.Errors.{
  LifecycleError, audit_failed, error_message, approval_not_stored, approval_not_audited,
}
use trading_intelligence.Lifecycle.World.{Details, auto_approved_by, failed_because}

module _ {Num B : Type 0} where
  -- Both events of an automatic approval are in the trail.
  abbrev pub HasBoth : Desk Num B → Desk Num B → Type 0
  HasBoth desk desk' =
      (first : AuditEvent (Details Num)) × (second : AuditEvent (Details Num)) × (first.event_type
        ≡ AuditEventType.trade_candidate_approved)
      × (second.event_type ≡ AuditEventType.trade_candidate_auto_approved)
      × (desk'.world.audit ≡ record_event second (record_event first desk.world.audit))

  -- An automatic approval at the instant, as it has to end.
  abbrev pub IsAutoApproval :
      String
      → ℕ
      → Desk Num B
      → Result (LifecycleError Num) (ApprovalOutcome Num) × Desk Num B
      → Type 0
  IsAutoApproval id now desk (ok (approved_outcome a), desk') =
      (c : TradeCandidate Num) × HasRow id c pending desk
      × (is_expired c now ≡ false)
      × HasRow id a approved desk'
      × HasBoth desk desk'
  IsAutoApproval id now desk (ok (failed_outcome a reason), desk') =
      HasRow id a failed desk'
      ⊎ ((HasRow id a approved desk' ⊎ HasRow id a expired desk')
          × HasEvent AuditEventType.auto_approval_failed desk desk')
  IsAutoApproval id now desk (err e, desk') =
      (message : String) × (e ≡ audit_failed message)
      × (a : TradeCandidate Num) × (HasRow id a approved desk'
          ⊎ (HasRow id a expired desk' ⊎ HasRow id a failed desk'))
  IsAutoApproval id now desk (ok (expired_outcome a), desk') =
      IsApproval id now desk (ok (expired_outcome a), desk')
  IsAutoApproval id now desk (ok already_handled, desk') =
      IsApproval id now desk (ok already_handled, desk')
  IsAutoApproval id now desk (ok not_found, desk') = IsApproval id now desk (ok not_found, desk')

module _ {Num B : Type 0} (office : Office Num) (id : String) (now : ℕ) (desk : Desk Num B) where
  -- Taking the approval back.
  revert_ends :
      (error : LifecycleError Num) (a : TradeCandidate Num) (desk' : Desk Num B)
      → HasRow id a approved desk'
      → IsAutoApproval id now desk (revert_approval office id now error desk')
  unfolding revert_approval after_revert patched event_of can_transition
  revert_ends error a desk' (row, same) =
      transition_candidate-then office (IsAutoApproval id now desk) id approved
        (record (to_status failed) {
          failure_reason = some (office.message_text (approval_not_audited (error_message error)));
        })
        (after_revert office now (approval_not_audited (error_message error))) desk' a refl row same
        λ at repo at_row.
          record_about-then office (IsAutoApproval id now desk) now
            AuditEventType.trade_candidate_execution_failed
            (patched a
              (record (to_status failed) {
                failure_reason =
                    some (office.message_text (approval_not_audited (error_message error)));
              })
              at)
            (failed_because (approval_not_audited (error_message error)))
            (return (failed_outcome _ (approval_not_audited (error_message error))))
            (record (after_clock office desk') { candidates = repo }) (inl (at_row, refl))
            (λ message. (message, refl, _, inr (inr (at_row, refl))))

  marked_ends :
      (outcome : ApprovalOutcome Num) (desk' : Desk Num B)
      → IsApproval id now desk (ok outcome, desk')
      → IsAutoApproval id now desk (mark_auto_approved office id now outcome desk')
  unfolding mark_auto_approved event_of
  marked_ends (approved_outcome a) desk' (c, waits, fresh, (row, same), (first, named, trail)) =
      record_about-then office
        (λ x. IsAutoApproval id now desk (catch_in (revert_approval office id now) x)) now
        AuditEventType.trade_candidate_auto_approved a (auto_approved_by auto_demo_approver_id)
        (return (approved_outcome a)) desk'
        (c, waits, fresh, (row, same), (first, _, named, refl, ap (record_event _) trail))
        (λ message. revert_ends (audit_failed message) a desk' (row, same))
  marked_ends (expired_outcome a) desk' h = h
  marked_ends (failed_outcome a reason) desk' h = absurd h
  marked_ends already_handled desk' h = h
  marked_ends not_found desk' h = h

  row_of :
      (a : TradeCandidate Num) (desk' : Desk Num B)
      → HasRow id a approved desk' ⊎ HasRow id a expired desk'
      → get id desk'.candidates.rows ≡ some a
  row_of a desk' (inl (row, _)) = row
  row_of a desk' (inr (row, _)) = row

  still :
      (a : TradeCandidate Num) (desk' : Desk Num B)
      → HasRow id a approved desk' ⊎ HasRow id a expired desk'
      → HasRow id a approved desk' ⊎ (HasRow id a expired desk' ⊎ HasRow id a failed desk')
  still a desk' (inl h) = inl h
  still a desk' (inr h) = inr (inl h)

  -- An approval that has thrown.
  thrown_ends :
      (error : LifecycleError Num) (desk' : Desk Num B)
      → IsApproval id now desk (err error, desk')
      → IsAutoApproval id now desk (approval_thrown office id now error desk')
  unfolding approval_thrown find_candidate event_of
  thrown_ends error desk' (message, _, trail, a, moved_to) =
      subst
        (λ o. IsAutoApproval id now desk (
          (audit_event office (told o)
              >> return (failure_outcome (approval_not_stored (error_message error)) o))
            desk'))
        (sym (row_of a desk' moved_to))
        (elim (Option-cases (office.refuses desk'.world.audit (told (some a)))) [
          | inl takes ↦
              rw takes
                (inr (moved_to, (told (some a), refl, ap (record_event (told (some a))) trail)))
          | inr (refusal, refuses) ↦ rw refuses (refusal, refl, a, still a desk' moved_to)
        ])
    where
      told : Option (TradeCandidate Num) → AuditEvent (Details Num)
      told o =
          event_of office now AuditEventType.auto_approval_failed (strategy_of o) (instrument_of o)
            id (failed_because (approval_not_stored (error_message error)))

  -- An automatic approval.
  pub auto_approve_trade_candidate-IsAutoApproval :
      IsAutoApproval id now desk (auto_approve_trade_candidate office id now desk)
  unfolding auto_approve_trade_candidate
  auto_approve_trade_candidate-IsAutoApproval =
      go (approve_trade_candidate office id auto_demo_approver_id now desk)
        (approve_trade_candidate-IsApproval office id auto_demo_approver_id now desk)
    where
      go :
          (x : Result (LifecycleError Num) (ApprovalOutcome Num) × Desk Num B)
          → IsApproval id now desk x
          → IsAutoApproval id now desk (approved_or_thrown office id now x)
      go (ok outcome, desk') h = marked_ends outcome desk' h
      go (err error, desk') h = thrown_ends error desk' h
