-- ===== src/Runtime/Sweeps.antt =====
-- What runtime/lifecycle-recovery.ts and runtime/position-reconciliation.ts share: the broker with the
-- capabilities that it may have, and what a sweep over the records is told and touches.
use trading_intelligence.Common.{
  ℕ, String, Bool, List, Option, none, some, ◌≡◌, Result, ok, err, return, throw, ◌>>=◌, filter,
  eqb,
}
use trading_intelligence.Common.Decimal.{decimal}
use trading_intelligence.Common.Time.{Timestamp, iso}
use trading_intelligence.Approval.Candidates.{Repository}
use trading_intelligence.Broker.{broker_error}
use trading_intelligence.Domain.Audit.{AuditEventType}
use trading_intelligence.Domain.Orders.{PaperPosition, InternalStrategy}
use trading_intelligence.Lifecycle.Errors.{broker_failed}
use trading_intelligence.Lifecycle.World.{World, Lm, SweepDetail, sweep, record_audit}

-- `RawPortfolioPosition`; its fields in camel case are the broker's ids.
pub record RawPortfolioPosition (Num : Type 0) : Type 0 where
  pub position_id : ℕ
  pub order_id : ℕ
  pub instrument_id : ℕ
  pub is_buy : Option Bool
  pub amount : Option Num
  pub open_rate : Option Num
  pub open_date_time : Option Timestamp

-- The broker of a sweep, over the state `B` that it keeps. What only some brokers can do is optional;
-- a call may throw a text. `get_order_status` tells whether the answer is truthy.
pub record SweepBroker (Num B : Type 0) : Type 0 where
  pub get_open_positions : B → Result String (List (PaperPosition Num))
  pub get_order_status : Option (String → B → Result String Bool × B)
  pub resolve_instrument : Option (String → B → Result String ℕ × B)
  pub get_raw_portfolio : Option (B → Result String (List (RawPortfolioPosition Num)) × B)
  pub adopt_position :
      Option (
        RawPortfolioPosition Num → String → InternalStrategy Num → B → Result String (Unit {0}) × B)

pub record Surroundings (Num B : Type 0) : Type 0 where
  pub broker : B
  pub candidates : Repository Num

-- `RecoveryContext`, without the services that are called.
pub record SweepContext (Num : Type 0) : Type 0 where
  pub instrument : String
  pub strategy : InternalStrategy Num
  pub broker_provider : String
  pub execution_run_id : String
  pub now : ℕ

abbrev pub Sm : Type 0 → Type 0 → Type 0 → Type 0
Sm Num B A = Lm Num (Surroundings Num B) A

module _ {Num B : Type 0} where
  -- A call of the broker, with what it throws as a value.
  abbrev pub ask_broker : {A : Type 0} → (B → Result String A × B) → Sm Num B (Result String A)
  ask_broker call w =
      let (answer, after) = call w.broker.broker in
      (ok answer, record w { broker = record w.broker { broker = after } })

  abbrev pub or_throw : {A : Type 0} → Result String A → Sm Num B A
  or_throw (ok a) = return a
  or_throw (err message) = throw (broker_failed (broker_error message))

  abbrev pub read_candidates : {A : Type 0} → (Repository Num → A) → Sm Num B A
  read_candidates f w = (ok (f w.broker.candidates), w)

  -- An event at the sweep's own instant.
  unfoldable pub record_sweep :
      SweepContext Num → AuditEventType → SweepDetail Num → Sm Num B (Unit {0})
  record_sweep ctx event_type detail = record_audit (record {
    timestamp = iso ctx.now;
    event_type = event_type;
    execution_run_id = ctx.execution_run_id;
    strategy_id = some ctx.strategy.strategy_id;
    strategy_version = none;
    source_type = none;
    instrument = some ctx.instrument;
    details = sweep ctx.broker_provider detail;
  })

  -- `broker.adoptPosition(...)` of a broker that has it.
  unfoldable pub adopt_by :
      Option (
        RawPortfolioPosition Num → String → InternalStrategy Num → B → Result String (Unit {0}) × B)
      → SweepContext Num
      → RawPortfolioPosition Num
      → Sm Num B (Unit {0})
  adopt_by none ctx raw = return tt
  adopt_by (some adopt) ctx raw = ask_broker (adopt raw ctx.instrument ctx.strategy) >>= or_throw

  unfoldable pub adopt_if_possible :
      SweepBroker Num B → SweepContext Num → RawPortfolioPosition Num → Sm Num B (Unit {0})
  unfolding adopt_by
  adopt_if_possible broker ctx raw = adopt_by broker.adopt_position ctx raw

-- `String(raw.positionID)`
unfoldable pub broker_position_id_of : {Num : Type 0} → RawPortfolioPosition Num → String
unfolding decimal
broker_position_id_of raw = decimal raw.position_id

-- The positions that the broker reports for an instrument.
unfoldable pub of_instrument :
    {Num : Type 0} → ℕ → List (RawPortfolioPosition Num) → List (RawPortfolioPosition Num)
of_instrument id positions = filter (λ p. eqb p.instrument_id id) positions

abbrev pub WorldOf : Type 0 → Type 0 → Type 0
WorldOf Num B = World Num (Surroundings Num B)

module _ {Num B : Type 0} (broker : SweepBroker Num B) (ctx : SweepContext Num) where
  -- The broker, asked in the state `b`, shows these positions of the instrument.
  abbrev pub Shows : B → List (RawPortfolioPosition Num) → Type 0
  Shows b raws =
      (resolve : String → B → Result String ℕ × B) × (read : B
        → Result String (List (RawPortfolioPosition Num)) × B)
      × (id : ℕ) × (positions : List (RawPortfolioPosition Num)) × (broker.resolve_instrument
          ≡ some resolve)
      × (broker.get_raw_portfolio ≡ some read)
      × ((resolve ctx.instrument b).0 ≡ ok id)
      × ((read (resolve ctx.instrument b).1).0 ≡ ok positions)
      × (of_instrument id positions ≡ raws)
