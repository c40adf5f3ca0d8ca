-- ===== src/Domain.antt =====
-- hermes-execution/types.ts, order-sizing.ts and the market types that flow through the pipeline.
pub mod Orders
pub mod Market
pub mod Audit
