-- ===== src/Examples.antt =====
-- Test data, and the theorems applied to concrete inputs.
pub mod Data
pub mod Risk
pub mod Broker
pub mod Lifecycle
pub mod Cycle
pub mod Approval
pub mod Runtime
mod Sweeps
mod Market
mod Approving
