-- ===== src/Runtime.antt =====
-- The parts of the trading runtime (runtime/) that keep state of their own between its cycles, and the
-- decisions it takes about open positions.
pub mod IncidentTypes
pub mod Incidents
pub mod OpposingSignals
pub mod Exits
pub mod Sweeps
pub mod Recovery
pub mod Repair
pub mod Reconciliation
