-- ===== src/Returns.antt =====
-- period_returns.py: period returns over the published NAVs of a fund.
pub mod Periods
pub mod Baselines
mod Samples
