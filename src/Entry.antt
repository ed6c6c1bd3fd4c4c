-- ===== src/Entry.antt =====
-- From a signal of the frozen strategy to the entry at the open of the next candle.
pub mod Signal
pub mod Strategy
pub mod Watcher
pub mod Activation
pub mod Timing
pub mod Contract
mod Examples
