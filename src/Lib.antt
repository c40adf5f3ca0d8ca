-- ===== src/Lib.antt =====
-- Verification of the trading core of platform/web/src/lib/hermes-execution.
--
-- The program takes a decision on an instrument, checks it against two risk gates, sends an order to
-- a broker, and keeps a record of the trade from the decision to the close. Around this it watches the
-- quality of market data and the open positions. The files model these parts (paths of the source are
-- relative to platform/web/src/lib/hermes-execution):
--
--   Domain      types.ts, order-sizing.ts, audit-trail.ts and the records of market data and decisions
--   Risk        risk-engine.ts (Risk.Strategy, evaluateRisk) and portfolio-risk-engine.ts
--               (Risk.Portfolio, PortfolioRiskEngine.evaluate)
--   Broker      paper-broker.ts and paper-broker-store.ts: the interface of a broker, and the local one
--               (Broker.Local: create, placeMarketOrder, closePosition)
--   Lifecycle   trade-lifecycle: the statuses and their table (Status), the store with its uniqueness
--               rules (Store), the calculations, the day's entry count, and the service
--   Cycle       market-decision-runner.ts (Cycle.Runner) and trade-lifecycle/trade-lifecycle-runner.ts
--               (Cycle.Tracked), the decision cycle without and with a record of the trade
--   Approval    trade-approval/types.ts and trade-candidate-repository.ts (Candidates): what waits for a
--               yes or a no, and the compare-and-set that moves it; duplicate-prevention.ts
--               (Duplicates): the check in front of a fresh BUY, with the repository's list query;
--               build-trade-candidate.ts (Builder); trade-candidate-service.ts: creation and expiry
--               (Service), approval and rejection (Approvals), execution (Snapshot, Execution)
--   Runtime     runtime/market-data-incident-tracker.ts (Incidents), opposing-signal-stability.ts
--               (OpposingSignals), exit-monitor.ts (Exits), and the sweeps that bring records and the
--               broker together again: lifecycle-recovery.ts (Recovery), position-reconciliation.ts
--               (Reconciliation) and trade-approval/candidate-lifecycle-repair.ts (Repair)
--   Market      runtime/market-hours-policy.ts, market-session.ts (Hours) and
--               market-data/candle-validation.ts: the check of a gap (Gaps), the validation of a history
--               (Validation) and the report on one (Diagnosis)
--   Common      shared types, tests, lists, dictionaries, effects, numbers and times
--   Examples    test data, and the theorems at concrete inputs
--
-- How the model corresponds to the code. An interface or a union of the source is a record or a data
-- type; a function or method has the source's name in snake case. A method that changes state is a
-- function from the state to a result and the next state; one that may throw returns a Result, and
-- what it wrote before it threw stays written. Methods are async in the source, but each runs to its end
-- before the next one starts, and so they do here. The lifecycle service works on a World of store,
-- audit trail and broker; the clock and the source of ids are functions of how often they were read, so
-- any clock and any ids are covered. The service and the automatic exits are stated for any broker
-- that fills the record PaperBroker; local_paper_broker fills it. The strategies are any function from
-- an id to what that strategy answers, which may depend on how many decisions were asked for before.
--
-- Numbers. Counters, milliseconds and versions are natural numbers. Prices, amounts and percentages
-- are of a type with the operations of Common.Numbers, given as an instance: what needs laws of
-- arithmetic names them (IsOrdered: doubles without NaN; IsExact: no rounding), and integers have both.
-- A timestamp text is what Date.parse makes of it: milliseconds, or nothing that parses.
--
-- Texts of checks, errors and events are constructors that carry the values put into them. Loops go over
-- lists, but for the loop over the boundaries of a gap (Market.Gaps.check_boundaries): its fuel is the
-- number of intervals in the gap, which is enough.
--
-- Parameters. What the language's library does with a locale or with texts is an argument: the order of
-- texts (localeCompare), upper case, the parser of dates and the formatter of local times. The broker of
-- the sweeps is a record of capabilities (Runtime.Sweeps), each of which may be missing or throw. The
-- approval service and the recovery sweep work with a trail that may refuse any event
-- (Approval.Service.Office, Runtime.Recovery.RecoveryContext); elsewhere the trail is the in-memory one,
-- which takes every event.
--
-- Not modelled: the free-form context of a lifecycle error and the reading and writing of files, which
-- carry no rule of the program; the adapters of remote brokers, the notifications, the database-backed
-- stores and the web interface, which are calls of other services; and, so far, the trading runtime that
-- schedules the cycles, the strategies and their signals, the backtests and the trade statistics.
pub mod Common
pub mod Domain
pub mod Risk
pub mod Broker
pub mod Lifecycle
pub mod Cycle
pub mod Approval
pub mod Runtime
pub mod Examples
pub mod Market
