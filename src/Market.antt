-- ===== src/Market.antt =====
-- runtime/market-hours-policy.ts, market-session.ts and market-data/candle-validation.ts: when a market
-- trades, and whether its candles can be trusted.
pub mod Hours
pub mod Gaps
pub mod Candles
pub mod Validation
pub mod Diagnosis
