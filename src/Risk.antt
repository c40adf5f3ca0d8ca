-- ===== src/Risk.antt =====
-- hermes-execution/risk-engine.ts and portfolio-risk-engine.ts: the two gates before an order that
-- opens a position.
pub mod Checks
pub mod Portfolio
pub mod Strategy
