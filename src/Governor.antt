-- ===== src/Governor.antt =====
-- src/mss/analysis/portfolio_risk_governor.py: market eligibility, and the risk limits of a portfolio.
pub mod Eligibility
pub mod Tags
pub mod Portfolio
