-- ===== src/Cycle.antt =====
-- One decision about one instrument, and what is done about it.
pub mod Runner
pub mod Guard
pub mod Tracked
