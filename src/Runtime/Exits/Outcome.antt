-- ===== src/Runtime/Exits/Outcome.antt =====
-- What an automatic exit leaves in the store.
use trading_intelligence.Common.{
  ℕ, String, ◌≡◌, refl, subst, [], ◌∷◌, Option, some, none, Result, ok, err, return, continue,
  catch_in, Bool-cases, inl, inr,
}
use trading_intelligence.Common.Dict.{get}
use trading_intelligence.Common.Numbers.{Numbers}
use trading_intelligence.Common.Time.{iso}
use trading_intelligence.Broker.{PaperBroker, BrokerError}
use trading_intelligence.Domain.Market.{ExitTrigger}
use trading_intelligence.Domain.Orders.{PaperPosition, CompletedTrade}
use trading_intelligence.Lifecycle.Errors.{LifecycleError, Message, text}
use trading_intelligence.Lifecycle.Record.{TradeLifecycleRecord, RecordClosedInput}
use trading_intelligence.Lifecycle.Status.{
  close_requested, closed, close_failed, open_status, includes,
}
use trading_intelligence.Lifecycle.Service.Stored.{Returns, Returns-then, Moved, call-Moved}
use trading_intelligence.Lifecycle.Service.Calls.{call, target, requests_close, fails_close, closes}
use trading_intelligence.Lifecycle.World.{World, Env}
use trading_intelligence.Runtime.Exits.{
  ExecuteAutomaticExitResult, closed_as, not_closed, RateFetching, execute_automatic_exit,
  close_matching, after_broker, close_stored, persistence_failed, fail_close, request_if_open,
  exit_event, fresh_exit_price, broker_close, open_positions, matching_position,
}

module _ {Num S : Type 0} where
  -- A closed trade stands in the store as the result says; one that could not be closed stands there as
  -- CLOSE_FAILED.
  abbrev pub Leaves : String → ExecuteAutomaticExitResult Num → World Num S → Type 0
  Leaves id (closed_as r') w = (r'.status ≡ closed) × (get id w.store ≡ some r')
  Leaves id (not_closed reason) w =
      (r' : TradeLifecycleRecord Num) × (r'.status ≡ close_failed) × (get id w.store ≡ some r')

module _ {Num S : Type 0} ⦃num : Numbers Num⦄ (env : Env) where
  fail_close-Leaves :
      (r : TradeLifecycleRecord Num) (message reason : Message Num) (w : World Num S)
      → Returns (Leaves r.id) (fail_close env r message reason w)
  unfolding fail_close call target
  fail_close-Leaves r message reason w =
      Returns-then (Moved r close_failed) (Leaves r.id) (call env r (fails_close message)) _ w
        (call-Moved env r (fails_close message) w) λ r' w' (_, failed, at). (r', failed, at)

  request_if_open-keeps :
      (r : TradeLifecycleRecord Num) (w : World Num S)
      → Returns (λ r' w'. r'.id ≡ r.id) (request_if_open env r w)
  unfolding request_if_open call target
  request_if_open-keeps r w = elim (Bool-cases (includes (open_status ∷ []) r.status)) [
    | inl live ↦ rw live (go (call env r requests_close w) (call-Moved env r requests_close w))
    | inr not_live ↦ rw not_live refl
  ]
    where
      go :
          (x : Result (LifecycleError Num) (TradeLifecycleRecord Num) × World Num S)
          → Returns (Moved r close_requested) x
          → Returns (λ r' w'. r'.id ≡ r.id) x
      go (ok r', w') (same, _, _) = same
      go (err e, w') _ = tt

  close_stored-Leaves :
      (now : ℕ) (r requested : TradeLifecycleRecord Num) (trade : CompletedTrade Num)
      (w : World Num S)
      → Returns (Leaves requested.id) (close_stored env now r requested trade w)
  unfolding close_stored call target persistence_failed exit_event
  close_stored-Leaves now r requested trade w =
      go (call env requested (closes input) w) (call-Moved env requested (closes input) w)
    where
      input : RecordClosedInput Num
      input = record {
        exit_price = trade.exit_price;
        exit_reason = text trade.close_reason;
        closed_at = some (iso now);
      }

      go :
          (x : Result (LifecycleError Num) (TradeLifecycleRecord Num) × World Num S)
          → Returns (Moved requested closed) x
          → Returns (Leaves requested.id) (
              catch_in
                (persistence_failed env now r requested trade)
                (continue (λ r'. return (closed_as r')) x))
      go (ok r', w') (_, at_target, at) = (at_target, at)
      go (err e, w') _ = fail_close-Leaves requested _ _ _

  after_broker-Leaves :
      (now : ℕ) (r requested : TradeLifecycleRecord Num)
      (result : Result (BrokerError Num) (CompletedTrade Num × String)) (w : World Num S)
      → Returns (Leaves requested.id) (after_broker env now r requested result w)
  unfolding after_broker
  after_broker-Leaves now r requested (ok (trade, order)) w =
      close_stored-Leaves now r requested trade w
  after_broker-Leaves now r requested (err e) w = fail_close-Leaves requested _ _ w

  module _ (broker : PaperBroker Num S) (rates : RateFetching Num S) where
    fresh_exit_price-Returns :
        (r : TradeLifecycleRecord Num) (p : PaperPosition Num) (w : World Num S)
        → Returns (λ _ _. Unit {0}) (fresh_exit_price env broker rates r p w)
    unfolding fresh_exit_price
    fresh_exit_price-Returns r p w =
        elim rates as (λ k. Returns (λ _ _. Unit {0}) (fresh_exit_price env broker k r p w)) [
          | none ↦ tt
          | some get_rate ↦ tt
        ]

    close_matching-Leaves :
        (trigger : ExitTrigger) (now : ℕ) (r requested : TradeLifecycleRecord Num)
        (found : Option (PaperPosition Num)) (w : World Num S)
        → Returns
            (Leaves requested.id)
            (close_matching env broker rates trigger now r requested found w)
    unfolding close_matching broker_close
    close_matching-Leaves trigger now r requested none w = fail_close-Leaves requested _ _ w
    close_matching-Leaves trigger now r requested (some p) w =
        Returns-then (λ _ _. Unit {0}) (Leaves requested.id) (fresh_exit_price env broker rates r p)
          _ w (fresh_exit_price-Returns r p w) λ price w' _. after_broker-Leaves now r requested _ _

    -- Whatever the broker does, an automatic exit that returns has left the trade in the store under the
    -- id of its record: as CLOSED, and as the record that it returns, if it says that the position was
    -- closed, and as CLOSE_FAILED if it says that it was not.
    pub execute_automatic_exit-Leaves :
        (trigger : ExitTrigger) (now : ℕ) (r : TradeLifecycleRecord Num) (w : World Num S)
        → Returns (Leaves r.id) (execute_automatic_exit env broker rates trigger now r w)
    unfolding execute_automatic_exit exit_event open_positions
    execute_automatic_exit-Leaves trigger now r w =
        Returns-then (λ r' w'. r'.id ≡ r.id) (Leaves r.id) (request_if_open env r) _ _
          (request_if_open-keeps r _)
          λ requested w' same.
            subst
              (λ k. Returns (Leaves k) (
                close_matching env broker rates trigger now r requested
                  (matching_position r (broker.get_open_positions w'.broker)) w'))
              same (close_matching-Leaves trigger now r requested _ w')
