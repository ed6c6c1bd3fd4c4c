-- ===== src/RiskState.antt =====
-- src/mss/analysis/shadow_portfolio_risk_state.py: the risk state of one position, and the snapshot of
-- a portfolio.
pub mod Position
pub mod Snapshot
pub mod Examples
