-- ===== src/Lifecycle.antt =====
-- hermes-execution/trade-lifecycle: the record of a trade from decision to close.
pub mod Status
pub mod Errors
pub mod Record
pub mod Store
pub mod Calculations
pub mod EntryCount
pub mod World
pub mod Service
