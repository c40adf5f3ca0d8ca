-- ===== src/Lifecycle/World.antt =====
-- What the lifecycle methods read and write: the store, the audit trail, the broker, a clock, a source
-- of ids and the strategies. Each reading of the clock, each id drawn and each decision asked for is
-- numbered, so that all can be any functions of that number; a method runs to its end before another one starts.
use trading_intelligence.Common.{ℕ, suc, String, List, Option, Result, ok, err, M}
use trading_intelligence.Common.Time.{Timestamp, iso}
use trading_intelligence.Approval.Candidates.{CandidateApprovalSource}
use trading_intelligence.Domain.Audit.{AuditEvent, record_event}
use trading_intelligence.Domain.Orders.{OrderSide, OrderSizingMode}
use trading_intelligence.Domain.Market.{MarketDecisionAction, TrendClassification, ExitTrigger}
use trading_intelligence.Risk.Checks.{CheckDetail, RiskCheck}
use trading_intelligence.Lifecycle.Errors.{LifecycleError, Message, ReconciliationReason}
use trading_intelligence.Lifecycle.Status.{TradeLifecycleStatus}
use trading_intelligence.Lifecycle.Store.{Store}

-- The part of `details` that a lifecycle event adds to the record's id and status.
pub data LifecycleDetail (Num : Type 0) : Type 0 where
  created : MarketDecisionAction → Num → Num → LifecycleDetail Num
  risk_rejected : List (CheckDetail Num) → LifecycleDetail Num
  approved : Num → Num → LifecycleDetail Num
  nothing_more : LifecycleDetail Num
  opened :
      Num
      → String
      → Option String
      → OrderSide
      → Num
      → OrderSizingMode
      → Option Num
      → Option Num
      → Timestamp
      → LifecycleDetail Num
  failed : Message Num → LifecycleDetail Num
  closed :
      Option Num
      → Num
      → Message Num
      → Num
      → Num
      → ℕ
      → Option String
      → Timestamp
      → LifecycleDetail Num
  excursion : Num → Num → Num → LifecycleDetail Num

-- `emaRelationship`
pub data EmaRelationship : Type 0 where
  ema20_above ema20_below ema20_equal : EmaRelationship

-- How a mismatch of a record with the broker was dealt with.
pub data MismatchResolution (Num : Type 0) : Type 0 where
  failed_closed : ReconciliationReason Num → MismatchResolution Num
  reconciled_closed_unreconciled : MismatchResolution Num

-- The details of the events of recovery, of reconciliation and of the repair of candidates. Those of
-- the first two name the broker's provider; `Option` stands for a field that some events leave out.
pub data SweepDetail (Num : Type 0) : Type 0 where
  correlated : String → String → TradeLifecycleStatus → SweepDetail Num
  abandoned ambiguous : String → TradeLifecycleStatus → Message Num → SweepDetail Num
  duplicate_detected : Option String → ReconciliationReason Num → List String → SweepDetail Num
  mismatch : String → TradeLifecycleStatus → MismatchResolution Num → SweepDetail Num
  reconciliation_failed :
      ReconciliationReason Num
      → Option String
      → Option String
      → Option TradeLifecycleStatus
      → SweepDetail Num
  discovered : String → String → Option Num → Option Num → SweepDetail Num
  reconciled : String → String → Option String → SweepDetail Num
  reopened orphaned : String → String → SweepDetail Num

-- The details of the events about a trade candidate, which name it too.
pub data CandidateDetail (Num : Type 0) : Type 0 where
  proposed : OrderSide → Num → Num → Num → Num → Timestamp → Option String → CandidateDetail Num
  lapsed : String → CandidateDetail Num
  approved_by : String → CandidateApprovalSource → CandidateDetail Num
  auto_approved_by : String → CandidateDetail Num
  rejected_by : String → Option String → CandidateDetail Num
  failed_because : Message Num → CandidateDetail Num
  executed_as : Option String → Option String → CandidateDetail Num

-- The details of the events of the lifecycle service, of the decision cycle, of the automatic exits, of
-- the sweeps over the records and of the approval of candidates.
pub data Details (Num : Type 0) : Type 0 where
  lifecycle : String → TradeLifecycleStatus → LifecycleDetail Num → Details Num
  decision_received :
      MarketDecisionAction
      → Num
      → List String
      → TrendClassification
      → Num
      → EmaRelationship
      → Details Num
  skipped : MarketDecisionAction → List String → Details Num
  no_trade : MarketDecisionAction → List (CheckDetail Num) → Details Num
  for_action : MarketDecisionAction → Details Num
  closing : MarketDecisionAction → String → Details Num
  risk_passed : List (RiskCheck Num) → Num → Num → Details Num
  risk_failed : List (RiskCheck Num) → Num → Num → List (CheckDetail Num) → Details Num
  exit_triggered :
      ExitTrigger → String → Option String → Option Num → Option Num → Option Num → Details Num
  exit_confirmed : String → Option String → Num → String → Num → Message Num → Details Num
  sweep : String → SweepDetail Num → Details Num
  execution_reconciled : String → String → TradeLifecycleStatus → Option String → Details Num
  failed_with_position : String → String → TradeLifecycleStatus → Details Num
  candidate : String → CandidateDetail Num → Details Num

pub record World (Num S : Type 0) : Type 0 where
  pub store : Store Num
  pub audit : List (AuditEvent (Details Num))
  pub broker : S
  pub clock_reads : ℕ
  pub ids_drawn : ℕ
  pub decisions_asked : ℕ

-- `now`, `idGenerator` and `executionRunId` of the service's dependencies.
pub record Env : Type 0 where
  pub clock : ℕ → ℕ
  pub new_id : ℕ → String
  pub execution_run_id : String

abbrev pub Lm : Type 0 → Type 0 → Type 0 → Type 0
Lm Num S A = M (World Num S) (LifecycleError Num) A

module _ {Num S : Type 0} where
  abbrev pub lift : {A : Type 0} → Result (LifecycleError Num) A → Lm Num S A
  lift r w = (r, w)

  abbrev pub written :
      World Num S
      → Result (LifecycleError Num) (Store Num)
      → Result (LifecycleError Num) (Unit {0}) × World Num S
  written w (ok store) = (ok tt, record w { store = store })
  written w (err e) = (err e, w)

  -- A write of the store: where it throws, the world is as it was.
  abbrev pub store_write :
      (Store Num → Result (LifecycleError Num) (Store Num)) → Lm Num S (Unit {0})
  store_write f w = written w (f w.store)

  abbrev pub read_store : {A : Type 0} → (Store Num → A) → Lm Num S A
  read_store f w = (ok (f w.store), w)

  abbrev pub record_audit : AuditEvent (Details Num) → Lm Num S (Unit {0})
  record_audit event w = (ok tt, record w { audit = record_event event w.audit })

module _ {Num S : Type 0} (env : Env) where
  -- `this.now().toISOString()`
  abbrev pub now_iso : Lm Num S Timestamp
  now_iso w = (ok (iso (env.clock w.clock_reads)), record w { clock_reads = suc w.clock_reads })

  abbrev pub draw_id : Lm Num S String
  draw_id w = (ok (env.new_id w.ids_drawn), record w { ids_drawn = suc w.ids_drawn })
