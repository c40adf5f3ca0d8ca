-- ===== src/Approval/Service.antt =====
-- trade-approval/trade-candidate-service.ts: what its functions work on, the creation of a candidate
-- and the sweep over those that have expired.
pub mod Expiry
pub mod Listed
pub mod Sweep
use trading_intelligence.Common.{
  ℕ, suc, String, Bool, false, List, [], ◌∷◌, ◌++◌, Option, some, none, Result, ok, err, M,
  if◌then◌else◌, ◌>>=◌, ◌>>◌, return, leb,
}
use trading_intelligence.Common.Int.{ℤ}
use trading_intelligence.Common.Numbers.{Numbers}
use trading_intelligence.Common.Time.{Timestamp, iso, date_parse}
use trading_intelligence.Approval.Builder.{
  BuildTradeCandidateInputOptions, build_trade_candidate_input,
}
use trading_intelligence.Approval.Candidates.{
  TradeCandidate, TradeCandidateStatus, TradeCandidateTransitionPatch, CandidateApprovalSource,
  human, auto_demo, Repository, InvalidTradeCandidateTransitionError, create_candidate,
  find_candidate, move_candidate, is_status,
}
use trading_intelligence.Approval.Candidates
use trading_intelligence.Approval.Duplicates.{TradeCandidateFilter, list_candidates}
use trading_intelligence.Domain.Audit.{AuditEvent, AuditEventType, record_event}
use trading_intelligence.Domain.Market.{MarketDecisionAction}
use trading_intelligence.Domain.Orders.{OrderSide}
use trading_intelligence.Lifecycle.Errors.{
  LifecycleError, Message, audit_failed, invalid_candidate_transition,
}
use trading_intelligence.Lifecycle.World.{
  World, Env, Details, CandidateDetail, candidate, proposed, lapsed,
}

-- The repository of candidates beside the world of the lifecycle, whose trail takes the events.
pub record Desk (Num B : Type 0) : Type 0 where
  pub candidates : Repository Num
  pub world : World Num B

abbrev pub Dm : Type 0 → Type 0 → Type 0 → Type 0
Dm Num B A = M (Desk Num B) (LifecycleError Num) A

-- What the service is told of its surroundings: the run, the repository's clock, the text of a message,
-- and which event the trail refuses to take after those that it has, with the error's text.
pub record Office (Num : Type 0) : Type 0 where
  pub env : Env
  pub message_text : Message Num → String
  pub refuses : List (AuditEvent (Details Num)) → AuditEvent (Details Num) → Option String

abbrev pub auto_demo_approver_id : String
auto_demo_approver_id = "system:auto-demo"

-- A patch that sets the status alone.
abbrev pub to_status : TradeCandidateStatus → TradeCandidateTransitionPatch
to_status status = record {
  status = status;
  approved_at = none;
  approved_by_user_id = none;
  approval_source = none;
  rejected_at = none;
  rejected_by_user_id = none;
  rejection_reason = none;
  executed_at = none;
  lifecycle_record_id = none;
  broker_order_id = none;
  failure_reason = none;
}

-- A timestamp that does not parse never expires.
abbrev pub passed : Option ℕ → ℕ → Bool
passed none now = false
passed (some at) now = leb at now

unfoldable pub is_expired : {Num : Type 0} → TradeCandidate Num → ℕ → Bool
is_expired c now = passed (date_parse c.input.expires_at) now

module _ {Num : Type 0} (office : Office Num) where
  unfoldable pub event_of :
      ℕ
      → AuditEventType
      → Option String
      → Option String
      → String
      → CandidateDetail Num
      → AuditEvent (Details Num)
  event_of now event_type strategy_id instrument id detail = record {
    timestamp = iso now;
    event_type = event_type;
    execution_run_id = office.env.execution_run_id;
    strategy_id = strategy_id;
    strategy_version = none;
    source_type = none;
    instrument = instrument;
    details = candidate id detail;
  }

module _ {Num B : Type 0} where
  abbrev pub candidate_by_id : String → Dm Num B (Option (TradeCandidate Num))
  candidate_by_id id desk = (ok (find_candidate id desk.candidates), desk)

  abbrev pub taken : AuditEvent (Details Num) → Option String → Dm Num B (Unit {0})
  taken event none desk = (
    ok tt,
    record desk { world = record desk.world { audit = record_event event desk.world.audit } },
  )
  taken event (some message) desk = (err (audit_failed message), desk)

  abbrev pub moved :
      Result InvalidTradeCandidateTransitionError (Option (TradeCandidate Num)) × Repository Num
      → Dm Num B (Option (TradeCandidate Num))
  moved (ok c, repo) desk = (ok c, record desk { candidates = repo })
  moved (err e, repo) desk =
      (err (invalid_candidate_transition e.from e.to), record desk { candidates = repo })

  module _ (office : Office Num) where
    -- `auditTrail.record(event)`
    abbrev pub audit_event : AuditEvent (Details Num) → Dm Num B (Unit {0})
    audit_event event desk = taken event (office.refuses desk.world.audit event) desk

    unfoldable pub record_about :
        ℕ → AuditEventType → TradeCandidate Num → CandidateDetail Num → Dm Num B (Unit {0})
    unfolding event_of
    record_about now event_type c detail = audit_event (
        event_of office now event_type (some c.input.strategy_id) (some c.input.instrument) c.id
          detail)

    -- `new Date()` of the repository.
    abbrev pub repository_now : Dm Num B ℕ
    repository_now desk = (
      ok (office.env.clock desk.world.clock_reads),
      record desk { world = record desk.world { clock_reads = suc desk.world.clock_reads } },
    )

    unfoldable pub transition_candidate :
        String
        → TradeCandidateStatus
        → TradeCandidateTransitionPatch
        → Dm Num B (Option (TradeCandidate Num))
    unfolding move_candidate
    transition_candidate id from patch = do
      at ← repository_now
      (λ desk. moved (move_candidate id from patch at desk.candidates) desk)

abbrev pub add_expired :
    {Num : Type 0}
    → Option (TradeCandidate Num)
    → List (TradeCandidate Num)
    → List (TradeCandidate Num)
add_expired none cs = cs
add_expired (some c) cs = c ∷ cs

abbrev pub sweep_filter : TradeCandidateStatus → String → String → TradeCandidateFilter
sweep_filter status strategy_id instrument = record {
  status = some status;
  strategy_id = some strategy_id;
  instrument = some instrument;
  limit = none;
}

module _ {Num B : Type 0} (office : Office Num) where
  -- What follows an expiry: the event, if the row was still in its status.
  unfoldable pub after_lapse :
      ℕ → String → Option (TradeCandidate Num) → Dm Num B (Option (TradeCandidate Num))
  unfolding record_about
  after_lapse now reason none = return none
  after_lapse now reason (some c) = do
    record_about office now AuditEventType.trade_candidate_expired c (lapsed reason)
    return (some c)

  -- The transition to EXPIRED and its event.
  unfoldable pub expire_candidate :
      ℕ → String → String → TradeCandidateStatus → Dm Num B (Option (TradeCandidate Num))
  unfolding transition_candidate after_lapse
  expire_candidate now reason id from = do
    moved_one ← transition_candidate office id from (to_status Candidates.expired)
    after_lapse now reason moved_one

  -- createTradeCandidateForDecision: `none` for a decision to hold.
  unfoldable pub create_of_side :
      ⦃num : Numbers Num⦄
      → BuildTradeCandidateInputOptions Num
      → OrderSide
      → Dm Num B (Option (TradeCandidate Num))
  unfolding create_candidate build_trade_candidate_input event_of
  create_of_side options side = do
    at ← repository_now office
    c ← λ desk.
        let (made, repo) =
          create_candidate (build_trade_candidate_input options side) at desk.candidates in
        (ok made, record desk { candidates = repo })
    let event =
        event_of office options.now AuditEventType.trade_candidate_created
          (some c.input.strategy_id) (some c.input.instrument) c.id
          (proposed c.input.side c.input.confidence c.input.entry_price c.input.stop_loss
            c.input.take_profit c.input.expires_at c.input.analysis_run_id)
    audit_event office (record event { strategy_version = some c.input.strategy_version })
    return (some c)

  unfoldable pub create_of_action :
      ⦃num : Numbers Num⦄
      → BuildTradeCandidateInputOptions Num
      → MarketDecisionAction
      → Dm Num B (Option (TradeCandidate Num))
  unfolding create_of_side
  create_of_action options MarketDecisionAction.hold = return none
  create_of_action options MarketDecisionAction.buy = create_of_side options OrderSide.buy
  create_of_action options MarketDecisionAction.sell = create_of_side options OrderSide.sell

  unfoldable pub create_trade_candidate_for_decision :
      ⦃num : Numbers Num⦄
      → BuildTradeCandidateInputOptions Num
      → Dm Num B (Option (TradeCandidate Num))
  unfolding create_of_action
  create_trade_candidate_for_decision options = create_of_action options options.decision.action

  -- One candidate of those that the list query has found.
  abbrev pub sweep_one :
      ℕ → TradeCandidateStatus → TradeCandidate Num → Dm Num B (Option (TradeCandidate Num))
  sweep_one now status c =
      if is_expired c now then expire_candidate now "expiry-sweep" c.id status else return none

  unfoldable pub sweep_found :
      ℕ → TradeCandidateStatus → List (TradeCandidate Num) → Dm Num B (List (TradeCandidate Num))
  unfolding is_expired expire_candidate
  sweep_found now status [] = return []
  sweep_found now status (c ∷ cs) = do
    gone ← sweep_one now status c
    rest ← sweep_found now status cs
    return (add_expired gone rest)

  module _ (locale_compare : Timestamp → Timestamp → ℤ) where
    unfoldable pub sweep_status :
        ℕ → String → String → TradeCandidateStatus → Dm Num B (List (TradeCandidate Num))
    unfolding list_candidates sweep_found
    sweep_status now strategy_id instrument status desk =
        sweep_found now status
          (list_candidates locale_compare (sweep_filter status strategy_id instrument)
            desk.candidates)
          desk

    unfoldable pub sweep_expired_candidates :
        ℕ → String → String → Dm Num B (List (TradeCandidate Num))
    unfolding sweep_status
    sweep_expired_candidates now strategy_id instrument = do
      of_pending ← sweep_status now strategy_id instrument Candidates.pending
      of_approved ← sweep_status now strategy_id instrument Candidates.approved
      return (of_pending ++ of_approved)
