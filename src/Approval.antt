-- ===== src/Approval.antt =====
-- hermes-execution/trade-approval: what waits for a yes or a no before it is executed.
pub mod Candidates
pub mod Duplicates
pub mod Builder
pub mod Service
pub mod Approvals
pub mod Snapshot
pub mod Execution
pub mod Moves
