-- ===== src/Approval/Duplicates.antt =====
-- trade-approval/duplicate-prevention.ts: the check in front of a fresh BUY candidate, with the query of
-- trade-candidate-repository.ts that it reads.
pub mod Fresh
use trading_intelligence.Common.{
  ℕ, String, Bool, true, false, not, ◌&&◌, List, [], ◌∷◌, Option, none, some, ◌==◌, filter, find,
  take, if◌then◌else◌, eqb,
}
use trading_intelligence.Common.Dict.{values}
use trading_intelligence.Common.Int.{ℤ, pos, leb_ℤ}
use trading_intelligence.Common.Time.{Timestamp}
use trading_intelligence.Domain.Orders.{OrderSide, buy, sell}
use trading_intelligence.Approval.Candidates.{
  TradeCandidateStatus, TradeCandidate, Repository, pending, approved, is_status,
}
use trading_intelligence.Lifecycle.Record.{TradeLifecycleRecord}
use trading_intelligence.Lifecycle.Status.{
  TradeLifecycleStatus, includes, decision_created, execution_submitted, open_status,
  close_requested, close_failed, execution_reconciliation_required,
}
use trading_intelligence.Lifecycle.Store.{Store, list_active_lifecycle_records}

pub record TradeCandidateFilter : Type 0 where
  pub status : Option TradeCandidateStatus
  pub strategy_id : Option String
  pub instrument : Option String
  pub limit : Option ℕ

-- What the text of the reason names, besides the strategy and the instrument.
pub data DuplicateReason : Type 0 where
  pending_buy : String → DuplicateReason
  approved_buy : String → DuplicateReason
  in_flight : String → TradeLifecycleStatus → DuplicateReason

pub data DuplicateEntryCheckResult : Type 0 where
  not_duplicate : DuplicateEntryCheckResult
  duplicate : DuplicateReason → DuplicateEntryCheckResult

unfoldable pub in_flight_statuses : List TradeLifecycleStatus
in_flight_statuses =
    decision_created ∷ TradeLifecycleStatus.approved ∷ execution_submitted ∷ open_status
    ∷ close_requested ∷ close_failed ∷ execution_reconciliation_required ∷ []

-- A filter on a text that is missing or empty keeps everything.
unfoldable pub text_matches : Option String → String → Bool
text_matches none s = true
text_matches (some t) s = if t == "" then true else s == t

unfoldable pub status_matches : Option TradeCandidateStatus → TradeCandidateStatus → Bool
unfolding is_status
status_matches none s = true
status_matches (some t) s = is_status s t

unfoldable pub is_buy : OrderSide → Bool
is_buy buy = true
is_buy sell = false

abbrev pub of_entry : TradeCandidateStatus → String → String → TradeCandidateFilter
of_entry status strategy_id instrument = record {
  status = some status;
  strategy_id = some strategy_id;
  instrument = some instrument;
  limit = none;
}

unfoldable pub in_slot : {Num : Type 0} → String → String → TradeLifecycleRecord Num → Bool
unfolding includes in_flight_statuses
in_slot strategy_id instrument r =
    (r.strategy_id == strategy_id)
    && ((r.symbol == instrument) && includes in_flight_statuses r.status)

-- `if (filter.limit) results.slice(0, filter.limit)`
unfoldable pub cut : {A : Type 0} → ℕ → List A → List A
cut n xs = if eqb n 0 then xs else take n xs

-- `locale_compare a b` is `a.localeCompare(b)`.
module _ {Num : Type 0} (locale_compare : Timestamp → Timestamp → ℤ) where
  -- The stable sort of the source, newest first.
  unfoldable pub insert : TradeCandidate Num → List (TradeCandidate Num) → List (TradeCandidate Num)
  insert c [] = c ∷ []
  insert c (d ∷ ds) =
      let rest = insert c ds in
      if leb_ℤ (locale_compare d.created_at c.created_at) (pos 0) then c ∷ d ∷ ds else d ∷ rest

  unfoldable pub sort : List (TradeCandidate Num) → List (TradeCandidate Num)
  unfolding insert
  sort [] = []
  sort (c ∷ cs) = insert c (sort cs)

  unfoldable pub list_candidates : TradeCandidateFilter → Repository Num → List (TradeCandidate Num)
  unfolding sort values status_matches text_matches cut
  list_candidates f repo =
      let of_status = filter (λ c. status_matches f.status c.status) (sort (values repo.rows)) in
      let of_strategy = filter (λ c. text_matches f.strategy_id c.input.strategy_id) of_status in
      let results = filter (λ c. text_matches f.instrument c.input.instrument) of_strategy in
      elim f.limit [ none ↦ results | some n ↦ cut n results ]

  unfoldable pub check_for_duplicate_entry :
      String → String → Repository Num → Store Num → DuplicateEntryCheckResult
  unfolding list_candidates is_buy in_slot list_active_lifecycle_records in_flight_statuses
  check_for_duplicate_entry strategy_id instrument repo records =
      let pending_candidates = list_candidates (of_entry pending strategy_id instrument) repo in
      let approved_candidates = list_candidates (of_entry approved strategy_id instrument) repo in
      let lifecycle_records =
        list_active_lifecycle_records strategy_id instrument in_flight_statuses records in
      elim (find (λ c. is_buy c.input.side) pending_candidates) [
        | some c ↦ duplicate (pending_buy c.id)
        | none ↦ elim (find (λ c. is_buy c.input.side) approved_candidates) [
          | some c ↦ duplicate (approved_buy c.id)
          | none ↦ elim (find (in_slot strategy_id instrument) lifecycle_records) [
            | some r ↦ duplicate (in_flight r.id r.status)
            | none ↦ not_duplicate
          ]
        ]
      ]
