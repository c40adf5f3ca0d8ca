-- ===== src/Approval/Execution/Outcome.antt =====
-- trade-approval/trade-candidate-service.ts: how the execution of an approved candidate ends.
use trading_intelligence.Common.{
  ◌⊎◌, inl, inr, ℕ, String, Bool, true, false, ◌≡◌, refl, sym, ap, ◌∙◌, subst, some, Result, ok,
  err, continue, return, catch_in,
}
use trading_intelligence.Common.Dict.{get}
use trading_intelligence.Common.Numbers.{Numbers}
use trading_intelligence.Approval.Candidates.{
  TradeCandidate, Repository, is_status, can_transition, patched, approved, executed, failed,
  expired,
}
use trading_intelligence.Approval.Service.{Desk, Office, is_expired, event_of}
use trading_intelligence.Approval.Approvals.Outcome.{HasRow}
use trading_intelligence.Approval.Execution.{
  ExecutionOutcome, executed_outcome, lapsed_outcome, execution_failed_outcome,
  execution_already_handled, back, after_failure, after_success, failure_patch, not_executed_reason,
  execution_patch, settle_execution, try_execution, execution_thrown, lapse_result,
  execute_approved, execute_approved_trade_candidate,
}
use trading_intelligence.Approval.Execution.Backing.{Backs, IsBacking, execute_by_side-Backs}
use trading_intelligence.Approval.Snapshot.{ExecutionTerms, execute_by_side}
use trading_intelligence.Approval.Moves.{IsOut, IsOut-status, is_status_refl}
use trading_intelligence.Approval.Moves.Steps.{
  transition_candidate-else, record_about-told, Refusal, expire_candidate-else, after_clock,
}
use trading_intelligence.Broker.{PaperBroker}
use trading_intelligence.Cycle.Runner.{Registry}
use trading_intelligence.Cycle.Tracked.{TradeLifecycleCycleResult}
use trading_intelligence.Domain.Audit.{AuditEventType}
use trading_intelligence.Domain.Orders.{OrderSide}
use trading_intelligence.Lifecycle.Errors.{LifecycleError, audit_failed, error_message}
use trading_intelligence.Lifecycle.Record.{TradeLifecycleRecord}
use trading_intelligence.Lifecycle.Service.Stored.{Returns}
use trading_intelligence.Lifecycle.Status.{open_status}
use trading_intelligence.Lifecycle.World.{World, failed_because, executed_as}

-- Why an execution answers that the candidate was handled already: at its start the row was not
-- APPROVED, or the trail has refused an event.
abbrev pub WasHandled : {Num : Type 0} → Office Num → Repository Num → TradeCandidate Num → Type 0
WasHandled office start c = IsOut approved c.id start ⊎ Refusal office

module _ {Num B : Type 0} where
  -- A BUY that was executed names an OPEN record of the store.
  abbrev pub IsBacked : OrderSide → TradeCandidate Num → Desk Num B → Type 0
  IsBacked OrderSide.sell a desk = Unit {0}
  IsBacked OrderSide.buy a desk =
      (r : TradeLifecycleRecord Num) × (a.lifecycle_record_id ≡ some r.id)
      × (get r.id desk.world.store ≡ some r)
      × (r.status ≡ open_status)

  abbrev pub IsOutcome :
      Office Num
      → Repository Num
      → TradeCandidate Num
      → ℕ
      → Result (LifecycleError Num) (ExecutionOutcome Num)
      → Desk Num B
      → Type 0
  IsOutcome office start c now (ok (executed_outcome a)) desk =
      HasRow c.id a executed desk × IsBacked c.input.side a desk
  IsOutcome office start c now (ok (execution_failed_outcome a reason)) desk =
      HasRow c.id a failed desk
  IsOutcome office start c now (ok (lapsed_outcome a)) desk =
      (is_expired c now ≡ true) × HasRow c.id a expired desk
  IsOutcome office start c now (ok execution_already_handled) desk = WasHandled office start c
  IsOutcome office start c now (err e) desk =
      (message : String) × (e ≡ audit_failed message) × Refusal office

  -- How an execution that starts with the given rows has to end: with the candidate out of APPROVED,
  -- whatever happened, and in the status that the outcome says, if it says one.
  abbrev pub IsEnd :
      Office Num
      → Repository Num
      → TradeCandidate Num
      → ℕ
      → Result (LifecycleError Num) (ExecutionOutcome Num) × Desk Num B
      → Type 0
  IsEnd office start c now (answer, desk) =
      IsOut approved c.id desk.candidates × IsOutcome office start c now answer desk

gone :
    {Num : Type 0} (id : String) (repo : Repository Num) (a : TradeCandidate Num)
    → get id repo.rows ≡ some a
    → is_status a.status approved ≡ false
    → IsOut approved id repo
gone id repo a at other = IsOut-status approved id repo a at other

IsOut-other :
    {Num : Type 0} (id : String) (repo : Repository Num) (a : TradeCandidate Num)
    → get id repo.rows ≡ some a
    → a.status ≡ expired
    → IsOut approved id repo
unfolding is_status
IsOut-other id repo a at is_gone = gone id repo a at (ap (λ s. is_status s approved) is_gone)

module _ {Num B : Type 0} ⦃num : Numbers Num⦄ (office : Office Num) (broker : PaperBroker Num B)
    (registry : Registry Num) (terms : ExecutionTerms Num) (c : TradeCandidate Num)
    (start : Repository Num) where
  abbrev caught :
      Result (LifecycleError Num) (ExecutionOutcome Num) × Desk Num B
      → Result (LifecycleError Num) (ExecutionOutcome Num) × Desk Num B
  caught x = catch_in (execution_thrown office broker registry terms c) x

  thrown-IsEnd :
      (error : LifecycleError Num) (desk : Desk Num B)
      → (IsOut approved c.id desk.candidates → WasHandled office start c)
      → IsEnd office start c terms.now (execution_thrown office broker registry terms c error desk)
  unfolding execution_thrown patched event_of can_transition is_status
  thrown-IsEnd error desk why =
      transition_candidate-else office (IsEnd office start c terms.now) c.id approved
        (failure_patch office broker registry terms (error_message error)) _ desk refl
        (λ out.
          record_about-told office (IsEnd office start c terms.now) terms.now
            AuditEventType.trade_candidate_execution_failed c (failed_because (error_message error))
            _ (after_clock office desk) (out, why out)
            (λ message refusal. (out, (message, refl, refusal))))
        λ at old repo row.
          record_about-told office (IsEnd office start c terms.now) terms.now
            AuditEventType.trade_candidate_execution_failed c (failed_because (error_message error))
            _ (record (after_clock office desk) { candidates = repo })
            (gone c.id repo _ row refl, (row, refl))
            (λ message refusal. (gone c.id repo _ row refl, (message, refl, refusal)))

  backed :
      (side : OrderSide) (result : TradeLifecycleCycleResult Num) (old : TradeCandidate Num)
      (at : ℕ) (desk desk' : Desk Num B)
      → desk'.world.store ≡ desk.world.store
      → IsBacking side result desk.world
      → IsBacked side (patched old (execution_patch terms result) at) desk'
  unfolding execution_patch patched
  backed OrderSide.sell result old at desk desk' same h = tt
  backed OrderSide.buy result old at desk desk' same (r, named, stored, is_open) =
      (r, rw named refl, subst (λ m. get r.id m ≡ some r) (sym same) stored, is_open)

  settled-IsEnd :
      (result : TradeLifecycleCycleResult Num) (flag : Bool) (desk : Desk Num B)
      → desk.candidates ≡ start
      → (flag ≡ true → IsBacking c.input.side result desk.world)
      → IsEnd office start c terms.now
          (caught (settle_execution office broker registry terms c result flag desk))
  unfolding settle_execution after_failure after_success execution_patch patched event_of
      can_transition is_status
  settled-IsEnd result false desk same backs =
      transition_candidate-else office (λ x. IsEnd office start c terms.now (caught x)) c.id
        approved
        (failure_patch office broker registry terms (not_executed_reason result.result.blocked))
        (after_failure office broker registry terms (not_executed_reason result.result.blocked))
        desk refl (λ out. (out, inl (subst (IsOut approved c.id) same out)))
        λ at old repo row.
          record_about-told office (λ x. IsEnd office start c terms.now (caught x)) terms.now
            AuditEventType.trade_candidate_execution_failed
            (patched old
              (failure_patch office broker registry terms
                (not_executed_reason result.result.blocked))
              at)
            (failed_because (not_executed_reason result.result.blocked))
            (return (
              execution_failed_outcome
                (patched old
                  (failure_patch office broker registry terms
                    (not_executed_reason result.result.blocked))
                  at)
                (not_executed_reason result.result.blocked)))
            (record (after_clock office desk) { candidates = repo })
            (gone c.id repo _ row refl, (row, refl))
            (λ message refusal.
              thrown-IsEnd (audit_failed message)
                (record (after_clock office desk) { candidates = repo }) (λ out. inr refusal))
  settled-IsEnd result true desk same backs =
      transition_candidate-else office (λ x. IsEnd office start c terms.now (caught x)) c.id
        approved (execution_patch terms result) (after_success office broker registry terms) desk
        refl (λ out. (out, inl (subst (IsOut approved c.id) same out)))
        λ at old repo row.
          record_about-told office (λ x. IsEnd office start c terms.now (caught x)) terms.now
            AuditEventType.trade_candidate_executed (patched old (execution_patch terms result) at)
            (executed_as (patched old (execution_patch terms result) at).broker_order_id
              (patched old (execution_patch terms result) at).lifecycle_record_id)
            (return (executed_outcome (patched old (execution_patch terms result) at)))
            (record (after_clock office desk) { candidates = repo })
            (
              gone c.id repo _ row refl,
              ((row, refl), backed c.input.side result old at desk _ refl (backs refl)),
            )
            (λ message refusal.
              thrown-IsEnd (audit_failed message)
                (record (after_clock office desk) { candidates = repo }) (λ out. inr refusal))

  run-IsEnd :
      (desk : Desk Num B)
      (x : Result (LifecycleError Num) (TradeLifecycleCycleResult Num) × World Num B)
      → desk.candidates ≡ start
      → Returns (Backs c.input.side) x
      → IsEnd office start c terms.now (
          caught (
            continue
              (λ result.
                settle_execution office broker registry terms c result result.result.executed)
              (back desk x)))
  run-IsEnd desk (ok result, w) same backs =
      settled-IsEnd result result.result.executed (record desk { world = w }) same backs
  run-IsEnd desk (err e, w) same backs =
      thrown-IsEnd e (record desk { world = w }) (λ out. inl (subst (IsOut approved c.id) same out))

  approved-IsEnd :
      (late : Bool) (desk : Desk Num B)
      → desk.candidates ≡ start
      → is_expired c terms.now ≡ late
      → IsEnd office start c terms.now (execute_approved office broker registry terms c late desk)
  unfolding execute_approved try_execution can_transition
  approved-IsEnd true desk same late =
      expire_candidate-else office (IsEnd office start c terms.now) terms.now
        "expired-before-execution" c.id approved
        (λ a. return (lapse_result office broker registry terms a)) desk refl
        (λ out. (out, inl (subst (IsOut approved c.id) same out)))
        (λ a desk' row is_gone. (
          (IsOut-other c.id desk'.candidates a row is_gone, (late, (row, is_gone))),
          λ message refusal.
              (IsOut-other c.id desk'.candidates a row is_gone, (message, refl, refusal)),
        ))
  approved-IsEnd false desk same fresh =
      run-IsEnd desk (execute_by_side office broker registry terms c c.input.side desk.world) same
        (execute_by_side-Backs office broker registry terms c c.input.side desk.world)

module _ {Num B : Type 0} ⦃num : Numbers Num⦄ (office : Office Num) (broker : PaperBroker Num B)
    (registry : Registry Num) (terms : ExecutionTerms Num) (c : TradeCandidate Num) where
  -- Whatever the broker, the strategies and the trail do: the execution of a candidate that is given as
  -- APPROVED leaves it out of APPROVED. Where the outcome is that it was executed, failed or expired, its
  -- row is EXECUTED, FAILED or EXPIRED; an executed BUY then names a record that is OPEN in the store,
  -- and an expired one has expired. It is answered that it was handled already only if its row was not
  -- APPROVED at the start or the trail refuses an event. The execution throws only if the trail refuses
  -- an event.
  pub execute_approved_trade_candidate-IsEnd :
      (desk : Desk Num B)
      → c.status ≡ approved
      → IsEnd office desk.candidates c terms.now
          (execute_approved_trade_candidate office broker registry terms c desk)
  unfolding execute_approved_trade_candidate
  execute_approved_trade_candidate-IsEnd desk given =
      rw (ap (λ s. is_status s approved) given ∙ is_status_refl approved) (
        approved-IsEnd office broker registry terms c desk.candidates (is_expired c terms.now) desk
          refl refl)
