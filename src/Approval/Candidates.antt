-- ===== src/Approval/Candidates.antt =====
-- trade-approval/types.ts, and the in-memory repository of trade-candidate-repository.ts; the
-- repository's `list` is in Approval/Duplicates.antt.
pub mod Once
use trading_intelligence.Common.{
  ℕ, suc, String, Bool, true, false, List, [], ◌∷◌, Option, some, none, ite, if◌then◌else◌, Result,
  ok, err,
}
use trading_intelligence.Common.Decimal.{numbered}
use trading_intelligence.Common.Dict.{Dict, get, set}
use trading_intelligence.Common.Time.{Timestamp, iso}
use trading_intelligence.Domain.Market.{MarketDataSnapshot, MarketDecisionContext}
use trading_intelligence.Domain.Orders.{OrderSide, OrderSizingMode}

pub data TradeCandidateStatus : Type 0 where
  pending approved rejected expired executed failed : TradeCandidateStatus

unfoldable pub candidate_status_discrete : Discrete TradeCandidateStatus
candidate_status_discrete = hlevel

unfoldable pub valid_candidate_transitions : TradeCandidateStatus → List TradeCandidateStatus
valid_candidate_transitions pending = approved ∷ rejected ∷ expired ∷ []
valid_candidate_transitions approved = executed ∷ failed ∷ expired ∷ []
valid_candidate_transitions rejected = []
valid_candidate_transitions expired = []
valid_candidate_transitions executed = []
valid_candidate_transitions failed = []

unfoldable pub is_status : TradeCandidateStatus → TradeCandidateStatus → Bool
unfolding candidate_status_discrete
is_status a b = ite (candidate_status_discrete a b) true false

-- `includes` of a list of statuses.
unfoldable pub lists : List TradeCandidateStatus → TradeCandidateStatus → Bool
unfolding is_status
lists [] s = false
lists (x ∷ xs) s = let later = lists xs s in if is_status x s then true else later

-- What `assertValidCandidateTransition` lets pass.
unfoldable pub can_transition : TradeCandidateStatus → TradeCandidateStatus → Bool
unfolding lists valid_candidate_transitions
can_transition from to = lists (valid_candidate_transitions from) to

pub record InvalidTradeCandidateTransitionError : Type 0 where
  pub from : TradeCandidateStatus
  pub to : TradeCandidateStatus

pub data CandidateApprovalSource : Type 0 where
  human auto_demo : CandidateApprovalSource

pub record TradeCandidateExecutionSnapshot (Num : Type 0) : Type 0 where
  pub market_context : MarketDecisionContext Num
  pub market_data_snapshot : MarketDataSnapshot Num
  pub amount : Num
  pub sizing_mode : OrderSizingMode

pub record TradeCandidateInput (Num : Type 0) : Type 0 where
  pub analysis_run_id : Option String
  pub strategy_id : String
  pub strategy_version : ℕ
  pub instrument : String
  pub side : OrderSide
  pub confidence : Num
  pub entry_price : Num
  pub stop_loss : Num
  pub take_profit : Num
  pub risk_reward : Num
  pub reasoning : List String
  pub validation_notes : List String
  pub expires_at : Timestamp
  pub execution : TradeCandidateExecutionSnapshot Num

-- The fields of the input are in `input`.
pub record TradeCandidate (Num : Type 0) : Type 0 where
  pub input : TradeCandidateInput Num
  pub id : String
  pub status : TradeCandidateStatus
  pub created_at : Timestamp
  pub updated_at : Timestamp
  pub approved_at : Option Timestamp
  pub approved_by_user_id : Option String
  pub approval_source : Option CandidateApprovalSource
  pub rejected_at : Option Timestamp
  pub rejected_by_user_id : Option String
  pub rejection_reason : Option String
  pub executed_at : Option Timestamp
  pub lifecycle_record_id : Option String
  pub broker_order_id : Option String
  pub failure_reason : Option String

pub record TradeCandidateTransitionPatch : Type 0 where
  pub status : TradeCandidateStatus
  pub approved_at : Option Timestamp
  pub approved_by_user_id : Option String
  pub approval_source : Option CandidateApprovalSource
  pub rejected_at : Option Timestamp
  pub rejected_by_user_id : Option String
  pub rejection_reason : Option String
  pub executed_at : Option Timestamp
  pub lifecycle_record_id : Option String
  pub broker_order_id : Option String
  pub failure_reason : Option String

pub record Repository (Num : Type 0) : Type 0 where
  pub rows : Dict (TradeCandidate Num)
  pub next_id : ℕ

abbrev pub new_repository : {Num : Type 0} → Repository Num
new_repository = record { rows = []; next_id = 1 }

-- `patch.field ?? existing.field`
abbrev pub or_keep : {A : Type 0} → Option A → Option A → Option A
or_keep (some a) old = some a
or_keep none old = old

module _ {Num : Type 0} where
  unfoldable pub candidate_from : TradeCandidateInput Num → String → ℕ → TradeCandidate Num
  candidate_from input id now = record {
    input = input;
    id = id;
    status = pending;
    created_at = iso now;
    updated_at = iso now;
    approved_at = none;
    approved_by_user_id = none;
    approval_source = none;
    rejected_at = none;
    rejected_by_user_id = none;
    rejection_reason = none;
    executed_at = none;
    lifecycle_record_id = none;
    broker_order_id = none;
    failure_reason = none;
  }

  unfoldable pub create_candidate :
      TradeCandidateInput Num → ℕ → Repository Num → TradeCandidate Num × Repository Num
  unfolding candidate_from numbered set
  create_candidate input now repo =
      let candidate = candidate_from input (numbered "candidate-" repo.next_id) now in
      (
        candidate,
        record { rows = set candidate.id candidate repo.rows; next_id = suc repo.next_id },
      )

  unfoldable pub find_candidate : String → Repository Num → Option (TradeCandidate Num)
  unfolding get
  find_candidate id repo = get id repo.rows

  unfoldable pub patched :
      TradeCandidate Num → TradeCandidateTransitionPatch → ℕ → TradeCandidate Num
  patched existing patch now = record existing {
    status = patch.status;
    updated_at = iso now;
    approved_at = or_keep patch.approved_at existing.approved_at;
    approved_by_user_id = or_keep patch.approved_by_user_id existing.approved_by_user_id;
    approval_source = or_keep patch.approval_source existing.approval_source;
    rejected_at = or_keep patch.rejected_at existing.rejected_at;
    rejected_by_user_id = or_keep patch.rejected_by_user_id existing.rejected_by_user_id;
    rejection_reason = or_keep patch.rejection_reason existing.rejection_reason;
    executed_at = or_keep patch.executed_at existing.executed_at;
    lifecycle_record_id = or_keep patch.lifecycle_record_id existing.lifecycle_record_id;
    broker_order_id = or_keep patch.broker_order_id existing.broker_order_id;
    failure_reason = or_keep patch.failure_reason existing.failure_reason;
  }

  -- A compare-and-set: `none` for a candidate that is not there or not, or no more, in `from`.
  unfoldable pub move_candidate :
      String
      → TradeCandidateStatus
      → TradeCandidateTransitionPatch
      → ℕ
      → Repository Num
      → Result InvalidTradeCandidateTransitionError (Option (TradeCandidate Num)) × Repository Num
  unfolding can_transition is_status get set patched
  move_candidate id from patch now repo =
      if can_transition from patch.status
      then elim (get id repo.rows) [
        | none ↦ (ok none, repo)
        | some existing ↦
            if is_status existing.status from
            then (
              ok (some (patched existing patch now)),
              record repo { rows = set id (patched existing patch now) repo.rows },
            )
            else (ok none, repo)
      ]
      else (err (record { from = from; to = patch.status }), repo)
