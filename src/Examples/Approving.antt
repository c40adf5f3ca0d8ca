-- ===== src/Examples/Approving.antt =====
-- A decision that becomes a candidate, is approved by itself and executed.
use trading_intelligence.Common.{
  List, [], ◌∷◌, map, err, Bool, true, ◌≡◌, refl, ap, sym, ◌∙◌, Bool-cases, inl, inr, ◌==◌, eq_iff,
  arith, String, Option, some, none, Result, ok,
}
use trading_intelligence.Common.Int.{ℤ, pos}
use trading_intelligence.Common.Numbers.{integers}
use trading_intelligence.Approval.Builder.{BuildTradeCandidateInputOptions}
use trading_intelligence.Approval.Candidates.{
  TradeCandidate, TradeCandidateStatus, new_repository, create_candidate, candidate_from,
  find_candidate, approved, move_candidate, is_status, candidate_status_discrete, can_transition,
  lists, valid_candidate_transitions, patched,
}
use trading_intelligence.Approval.Builder.{build_trade_candidate_input}
use trading_intelligence.Approval.Snapshot.{ExecutionTerms}
use trading_intelligence.Approval.Duplicates.{
  list_candidates, sort, insert, status_matches, text_matches, cut,
}
use trading_intelligence.Approval.Service.{
  sweep_status, sweep_found, expire_candidate, after_lapse, Desk, Office, is_expired,
  transition_candidate, record_about, event_of,
}
use trading_intelligence.Approval.Service.{sweep_expired_candidates}
use trading_intelligence.Approval.Service.Expiry.{Expires}
use trading_intelligence.Approval.Service.Sweep.{IsKeyed, IsSwept, sweep_expired_candidates-IsSwept}
use trading_intelligence.Lifecycle.Service.Stored.{Returns}
use trading_intelligence.Approval.Candidates.{pending, expired}
use trading_intelligence.Approval.Approvals.{
  approve_trade_candidate, auto_approve_trade_candidate, ApprovalOutcome, failed_outcome,
  approve_pending, after_approval, approval_thrown, approval_patch,
}
use trading_intelligence.Approval.Approvals.Outcome.{IsApproval, approve_trade_candidate-IsApproval}
use trading_intelligence.Approval.Approvals.Automatic.{
  IsAutoApproval, auto_approve_trade_candidate-IsAutoApproval,
}
use trading_intelligence.Approval.Execution.{execute_approved_trade_candidate}
use trading_intelligence.Approval.Execution.Outcome.{IsEnd, execute_approved_trade_candidate-IsEnd}
use trading_intelligence.Broker.Local as local
use trading_intelligence.Broker.Local.Interface.{local_paper_broker}
use trading_intelligence.Domain.Audit.{AuditEventType}
use trading_intelligence.Domain.Orders.{units, buy}
use trading_intelligence.Common.Decimal.{numbered}
use trading_intelligence.Common.Dict.{get, set, values}
use trading_intelligence.Lifecycle.Errors.{LifecycleError}
use trading_intelligence.Examples.Cycle.{registry, before}
use trading_intelligence.Examples.Data.{decision, context, snapshot, limits, env, noon}

-- A trail that takes everything.
abbrev office : Office ℤ
office = record { env = env; message_text = λ m. "failed"; refuses = λ events event. none }

abbrev options : BuildTradeCandidateInputOptions ℤ
options = record {
  decision = decision;
  context = context;
  market_data_snapshot = snapshot;
  amount = pos 2;
  sizing_mode = units;
  analysis_run_id = none;
  now = noon;
  expiry_ms = 60000;
}

abbrev waiting : TradeCandidate ℤ
waiting = candidate_from (build_trade_candidate_input options buy) "candidate-1" noon

abbrev desk : Desk ℤ (local.World ℤ)
desk = record {
  candidates = (create_candidate (build_trade_candidate_input options buy) noon new_repository).1;
  world = before;
}

abbrev terms : ExecutionTerms ℤ
terms = record {
  portfolio_risk = record { config = limits; daily_trade_count = 1; broker_available = true };
  now = noon;
  broker_provider = "paper";
}

abbrev accepted : TradeCandidate ℤ
accepted = record waiting { status = approved }

approve_trade_candidate-IsApproval_example :
    IsApproval "candidate-1" noon desk
      (approve_trade_candidate office "candidate-1" "user-1" noon desk)
approve_trade_candidate-IsApproval_example =
    approve_trade_candidate-IsApproval office "candidate-1" "user-1" noon desk

auto_approve_trade_candidate-IsAutoApproval_example :
    IsAutoApproval "candidate-1" noon desk
      (auto_approve_trade_candidate office "candidate-1" noon desk)
auto_approve_trade_candidate-IsAutoApproval_example =
    auto_approve_trade_candidate-IsAutoApproval office "candidate-1" noon desk

execute_approved_trade_candidate-IsEnd_example :
    IsEnd office desk.candidates accepted noon
      (execute_approved_trade_candidate office local_paper_broker registry terms accepted desk)
execute_approved_trade_candidate-IsEnd_example =
    execute_approved_trade_candidate-IsEnd office local_paper_broker registry terms accepted desk
      refl

-- The trail refuses the event of the approval.
abbrev refused_type : AuditEventType → Option String
refused_type AuditEventType.trade_candidate_approved = some "disk full"
refused_type _ = none

abbrev strict : Office ℤ
strict = record {
  env = env;
  message_text = λ m. "failed";
  refuses = λ events event. refused_type event.event_type;
}

abbrev status_after :
    Result (LifecycleError ℤ) (ApprovalOutcome ℤ) × Desk ℤ (local.World ℤ)
    → Option (Bool × TradeCandidateStatus)
status_after (ok (failed_outcome a reason), after) = some (true, a.status)
status_after (answer, after) = none

-- It is reported as failed, and the candidate stays APPROVED.
approved_but_failed :
    status_after (auto_approve_trade_candidate strict "candidate-1" noon desk)
    ≡ some (true, approved)
unfolding auto_approve_trade_candidate approve_trade_candidate approve_pending is_expired
    transition_candidate move_candidate create_candidate candidate_from build_trade_candidate_input
    numbered set get is_status candidate_status_discrete can_transition lists
    valid_candidate_transitions after_approval record_about event_of approval_thrown find_candidate
    patched approval_patch
approved_but_failed = refl

desk_keyed : (k : String) (c : TradeCandidate ℤ) → get k desk.candidates.rows ≡ some c → c.id ≡ k
unfolding create_candidate numbered set get candidate_from
desk_keyed k c at_k = elim (Bool-cases ("candidate-1" == k)) [
  | inl hit ↦
      let row : waiting ≡ c = ground arith in
      sym (ap (λ x. x.id) row) ∙ (eq_iff "candidate-1" k).0 hit
  | inr miss ↦ absurd (ground arith)
]

desk-IsKeyed : IsKeyed desk.candidates
unfolding create_candidate numbered set get
desk-IsKeyed = ((refl, tt), desk_keyed)

-- The sweep years later, when the candidate has run out.
sweep_expired_candidates-IsSwept_example :
    Returns
      (λ gone (d : Desk ℤ (local.World ℤ)).
        Expires 1800000000000 desk.candidates d.candidates
        × IsSwept 1800000000000 waiting.input.strategy_id waiting.input.instrument pending
            d.candidates
        × IsSwept 1800000000000 waiting.input.strategy_id waiting.input.instrument approved
            d.candidates)
      (sweep_expired_candidates office
        (λ a b. pos 0)
        1800000000000
        waiting.input.strategy_id
        waiting.input.instrument
        desk)
sweep_expired_candidates-IsSwept_example =
    sweep_expired_candidates-IsSwept office 1800000000000 (λ a b. pos 0) waiting.input.strategy_id
      waiting.input.instrument desk desk-IsKeyed

abbrev statuses_after :
    Result (LifecycleError ℤ) (List (TradeCandidate ℤ)) × Desk ℤ (local.World ℤ)
    → Option (List TradeCandidateStatus × List TradeCandidateStatus)
statuses_after (ok gone, after) =
    some (map (λ c. c.status) gone, map (λ c. c.status) (values after.candidates.rows))
statuses_after (err e, after) = none

-- That sweep returns the candidate, and leaves it EXPIRED.
swept_later :
    statuses_after (
      sweep_expired_candidates office
        (λ a b. pos 0)
        1800000000000
        waiting.input.strategy_id
        waiting.input.instrument
        desk)
    ≡ some (expired ∷ [], expired ∷ [])
unfolding sweep_expired_candidates sweep_status sweep_found is_expired expire_candidate after_lapse
    list_candidates sort insert status_matches text_matches cut values transition_candidate
    move_candidate create_candidate candidate_from build_trade_candidate_input numbered set get
    is_status candidate_status_discrete can_transition lists valid_candidate_transitions
    record_about event_of find_candidate patched
swept_later = refl
