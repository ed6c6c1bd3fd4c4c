-- ===== src/Journal.antt =====
-- src/mss/analysis/shadow_trade_journal.py: the append-only journal whose events are chained by hashes.
pub mod Json
pub mod Chain
pub mod Append
pub mod Transaction
